-- ===== src/Lib.antt =====
-- A model of flannel-rust, a port of the flannel overlay network daemon to Rust, and what is proved of it.
--
-- The program: a node of a cluster acquires a subnet of the configured network
-- (crates/flannel-core/src/subnet), watches the leases of the other nodes
-- (crates/flannel-core/src/lease), and a backend (crates/flannel-core/src/backend) programs the
-- routes to them. All of it computes on the address types of crates/flannel-core/src/ip.
--
-- Files:
--   Prelude            Boolean tests, lists over the native numbers, integers, and the arithmetic of masks
--   Ip.Align           rounding down to a multiple of a power of two
--   Ip.Block, Ip.Pool  blocks of addresses at any width, and their division into subnets
--   Ip.Parse           the FromStr of ip/ipnet.rs and ip/ip6net.rs
--   Ip.V4              ip/ipnet.rs: an IP4 is its u32, an IP4Net an address and a prefix length
--   Ip.V6              ip/ip6net.rs: an IP6 is its 16 bytes
--   Config             subnet/config.rs: Config and check_network_config
--   Lease              lease/mod.rs: leases, events, and the watcher
--   Watch              subnet/watch.rs: reduce, watch_leases, and the handling of single-lease results
--   Udp.Packet         backend/udp/proxy_packet.rs: checksum, TTL, and the ICMP reply
--   Udp.Routes         backend/udp/proxy.rs: control commands, route table, netmask, process_cmd
--   Udp.Proxy          backend/udp/proxy.rs: tun_to_udp, udp_to_tun and the loop of run_proxy
--   Vici               backend/ipsec/vici.rs: messages, encode and parse
--   Vici.Request       backend/ipsec/vici.rs: packets, requests, and the commands of ViciConn
--   Mac                mac.rs, and parse_mac of backend/vxlan/mod.rs: MAC addresses
--   Vxlan              backend/vxlan/device.rs and events.rs: the device, the routes, the requests
--   Vxlan.Retry        backend/vxlan/events.rs: retry_do
--   Vxlan.Events       backend/vxlan/events.rs: handle_subnet_events
--   Flags              flags.rs: flags, values, and the sets of flags
--   Flags.Parse        flags.rs: FlagSet::parse
--   Flags.Env          flags.rs: set_flags_from_env
--   Kube               kube/types.rs and subnet/kube/annotations.rs: nodes and their annotations
--   Kube.Keys          subnet/kube/annotations.rs: new_annotations
--   Kube.Events        subnet/kube/events.rs: node_to_lease and the handlers of adds and updates
--   Kube.Enqueue       subnet/kube/events.rs: enqueue_lease_event
--   Kube.Informer      subnet/kube/informer.rs: the store, the lists and the watches
--   Kube.Frames        kube/watch.rs: the decoding of a watch stream
--   Kube.Hub           subnet/kube/mod.rs: EventHub
--   Kube.Poll          subnet/kube/acquire.rs: the rounds of the polls, patch_with_retry
--   Kube.Patch         subnet/kube/acquire.rs: maybe_patch_annotations
--   Kube.Acquire       subnet/kube/acquire.rs: the pod CIDRs, the wait for the node, and acquire_lease
--   Routes             backend/route_network.rs and route_network/spec.rs: routes, route_add and the recovery
--   Routes.Events      backend/route_network.rs: handle_subnet_events
--   Tests              the theorems at concrete inputs, and runs
--
-- Correspondence: a Rust function has a definition of the same name. The numbers are natural numbers and
-- the operations on a u32 or a u128 wrap as in the code (% 2 ^ 32, % 2 ^ 128); that an address is
-- in range is a hypothesis of a theorem where it needs it (IsWord, IsAddress). A method that changes its
-- receiver returns the new one. check_network_config changes its argument also where it fails, so that
-- it returns both the configuration and the error. None of the watcher's methods stands for the panic of
-- `expect` on a missing own lease. A RawValue is its JSON text.
--
-- The proxy runs on a little-endian machine, as the code it ports. What poll and the reads of the proxy
-- give is a parameter of run_proxy (Poll, Received), and what it sends is the list of its outputs; writes
-- that fail only log. An index or a slice out of the bounds of a packet or of the route table is a panic,
-- `none`: each access of the code stands under a test of its bounds (within, move_front, first_hop).
--
-- The watch loop takes what its select! statements see as a list of signals (Signal): items from the manager,
-- the end of the manager, the end of a sleep, a cancellation. A receiver is the list of what it was sent
-- and the number of sends that it still takes before it is dropped (Sender).
--
-- A VICI text is the list of its bytes, and String::from_utf8_lossy a function on them. The socket is the bytes
-- that are still to be read and a function that says whether the peer takes a packet. The parser and the wait for
-- a response run on fuel, one more than the bytes that are left; Vici.Total.parse-total and
-- Vici.Request.Reply.call_total show that it does not run out.
--
-- A map of annotations and the informer's store are association lists. The parsers of addresses and numbers of
-- the standard library, the regular expression of new_annotations and the printing of addresses are parameters
-- (Parsers). The polls of acquire.rs take a list of rounds, each with what the store or the server gave, the
-- cancellation and the time in milliseconds (Pause); where the list ends first the result is still_waiting, which
-- is no error of the code. The informer takes what its select! statement sees as a list (Signal), and collects
-- the events that its handlers hand to enqueue_lease_event, whose retries are modelled apart from it. A
-- subscriber of the hub has a number, which stands for the identity of its channel.
--
-- A watch stream is the list of its chunks, each bytes or an error of the transport; it starts with an empty buffer.
-- What serde_json decodes a frame, a status and a node to is a parameter (Decoder), and the texts of decode errors
-- leave out what they quote.
--
-- The kernel's routing table is a parameter of the route network (Netlink): what a dump gives, and what adding and
-- deleting a route does. GetRoute is a function of the lease. How it
-- behaves is a hypothesis of the theorems: IsTaking (Routes.Recovery) of a kernel that takes every route,
-- IsExclusive (Routes.Added) of one that takes a route only where it holds none to the destination.
--
-- The VXLAN handler acts on a World: the kernel's answers to requests and route lookups, the shared devices, and the
-- sleeps, which a cancelled context ends. What the requests do to the kernel's tables is a hypothesis of the theorems
-- (IsKernel). The JSON parser is a parameter. retry_do counts its ten attempts down, as the loop counts them up.
--
-- The panics of the flag sets are `none`. What an argument does is a value (Step), and the position of a
-- flag is found again by its name. The variables of the environment and the upper case of a text are
-- parameters. An i64 is an integer, with the overflow of from_str_radix written out (Prelude.Radix).
--
-- The other loops are recursions on lists, but the folding of the checksum: it runs on fuel 6, which
-- Udp.Packet.Checksum.fold_enough shows to be enough for every sum of 64 bits.
--
-- Not modelled: printing and serde of addresses, the usage text of the flags, input and output, the status and
-- the watch operations of the kube subnet manager, the set-up of the VXLAN device, and the components that follow:
-- the other backends, the rest of the kube client, the traffic manager, interface matching, the daemon and the CNI plugin.
pub mod Prelude
pub mod Ip
pub mod Config
pub mod Mac
pub mod Flags
pub mod Lease
pub mod Watch
pub mod Udp
pub mod Vici
pub mod Vxlan
pub mod Kube
pub mod Routes
mod Tests
