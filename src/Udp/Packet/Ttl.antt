-- ===== src/Udp/Packet/Ttl.antt =====
-- Forwarding a packet: the TTL goes down and the checksum stays valid.
use flannel_rust.Prelude.{
  ℕ, ◌+◌, ◌-◌, ◌*◌, ◌/◌, ◌%◌, ◌^◌, ◌≤◌, ◌<◌, ◌≡◌, ◌≢◌, sym, ◌⊎◌, arith, List, ◌∷◌, ◌++◌, All, leb,
  length, if◌then◌else◌, inl, inr, true, some,
}
use flannel_rust.Udp.Packet.{word_sum, cksum, le16, decrement_ttl}
use flannel_rust.Udp.Packet.Checksum.{IsByte, cksum_of, word_residue, word_sum-bound}

-- The check field after the patch.
abbrev patched : ℕ → ℕ
patched check =
    if leb 0xfffe check then ((check + 1) % 2 ^ 16 + 1) % 2 ^ 16 else (check + 1) % 2 ^ 16

patched_cases :
    (c : ℕ)
    → c < 2 ^ 16
    → ((patched c ≡ c + 1) × (c < 0xfffe)) ⊎ ((patched c + 2 ^ 16 ≡ c + 2) × (0xfffe ≤ c))
patched_cases c h = ground arith

patched_residue :
    (c : ℕ)
    → c < 2 ^ 16
    → (x : ℕ) × (65536 * patched c + 65535 * x ≡ 65536 * c + 65535 * 65537 + 1)
      × (patched c < 2 ^ 16)
patched_residue c h = elim (patched_cases c h) [
  | inl (e, small) ↦ (65536, rw e (omega arith), rw e (omega arith))
  | inr (e, large) ↦ (131072, omega (arith, e), omega (arith, e))
]

-- A header of at least twelve bytes, by its bytes.
module _ (b0 b1 b2 b3 b4 b5 b6 b7 b8 b9 b10 b11 : ℕ) (rest : List ℕ) where
  abbrev pub header : List ℕ
  header = b0 ∷ b1 ∷ b2 ∷ b3 ∷ b4 ∷ b5 ∷ b6 ∷ b7 ∷ b8 ∷ b9 ∷ b10 ∷ b11 ∷ rest

  -- The header with another TTL and another check field.
  abbrev pub patch : ℕ → ℕ → List ℕ
  patch ttl check =
      b0 ∷ b1 ∷ b2 ∷ b3 ∷ b4 ∷ b5 ∷ b6 ∷ b7 ∷ ttl ∷ b9 ∷ (check % 256) ∷ (check / 256) ∷ rest

  decrement_ttl-patch :
      (payload : List ℕ)
      → (b8 + 255) % 256 ≢ 0
      → decrement_ttl (header ++ payload)
        ≡ some (true, patch ((b8 + 255) % 256) (patched (le16 b10 b11)) ++ payload)
  unfolding decrement_ttl
  decrement_ttl-patch payload h = ground arith

  word_sum-patch :
      (ttl check : ℕ)
      → word_sum (patch ttl check) + b8 + 65536 * le16 b10 b11
        ≡ word_sum header + ttl + 65536 * check
  unfolding word_sum
  word_sum-patch ttl check = omega arith

  ttl-word_sum : (ttl check : ℕ) → ttl ≤ word_sum (patch ttl check)
  unfolding word_sum
  ttl-word_sum ttl check = omega arith

  -- A header of 12 to 60 bytes with a valid checksum and a TTL of at least 2 that is forwarded leaves with the TTL one lower, with the
  -- same bytes but those of the TTL and the check field, and valid again, whatever the payload.
  pub decrement_ttl_valid :
      (payload : List ℕ)
      → All IsByte header
      → length header ≤ 60
      → 2 ≤ b8
      → cksum header ≡ 0
      → (check : ℕ) × (decrement_ttl (header ++ payload)
          ≡ some (true, patch (b8 - 1) check ++ payload))
        × (cksum (patch (b8 - 1) check) ≡ 0)
  decrement_ttl_valid payload bytes short ttl valid =
      let byte8 = bytes.1.1.1.1.1.1.1.1.0 in
      let byte10 = bytes.1.1.1.1.1.1.1.1.1.1.0 in
      let byte11 = bytes.1.1.1.1.1.1.1.1.1.1.1.0 in
      let c = le16 b10 b11 in
      let word : c < 2 ^ 16 = omega (arith, byte10, byte11) in
      let down : (b8 + 255) % 256 ≡ b8 - 1 = omega (arith, byte8) in
      let bound = word_sum-bound header bytes in
      let (positive, residue) = word_residue header (omega (arith, bound)) valid in
      let (x, shift, check_word) = patched_residue c word in
      let moved = word_sum-patch (b8 - 1) (patched c) in
      let kept = ttl-word_sum (b8 - 1) (patched c) in
      (
        patched c,
        rw (sym down) (decrement_ttl-patch payload (omega (arith, down))),
        cksum_of _ (omega (arith, residue, shift, moved)) (omega (arith, kept))
            (omega (arith, bound, moved, check_word)),
      )

  -- A header of 12 to 60 bytes with a valid checksum and a TTL of 0 is not discarded: it leaves with a TTL of 255, and not valid.
  pub decrement_ttl_zero :
      (payload : List ℕ)
      → All IsByte header
      → length header ≤ 60
      → b8 ≡ 0
      → cksum header ≡ 0
      → (check : ℕ) × (decrement_ttl (header ++ payload) ≡ some (true, patch 255 check ++ payload))
        × (cksum (patch 255 check) ≢ 0)
  decrement_ttl_zero payload bytes short ttl valid =
      let byte10 = bytes.1.1.1.1.1.1.1.1.1.1.0 in
      let byte11 = bytes.1.1.1.1.1.1.1.1.1.1.1.0 in
      let c = le16 b10 b11 in
      let word : c < 2 ^ 16 = omega (arith, byte10, byte11) in
      let up : (b8 + 255) % 256 ≡ 255 = omega (arith, ttl) in
      let bound = word_sum-bound header bytes in
      let (positive, residue) = word_residue header (omega (arith, bound)) valid in
      let (x, shift, check_word) = patched_residue c word in
      let moved = word_sum-patch 255 (patched c) in
      (
        patched c,
        rw (sym up) (decrement_ttl-patch payload (omega (arith, up))),
        λ e.
            let (positive', residue') =
              word_residue _ (omega (arith, bound, moved, check_word)) e in
            omega (arith, residue, residue', shift, moved, ttl),
      )
