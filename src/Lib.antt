-- ===== src/Lib.antt =====
-- MicroHosted: the core of the daemon that runs Firecracker micro-VMs on segmented networks.
--
-- The daemon keeps, per network, who holds which address (internal/network), per machine an
-- identity of a reserved uid range and limits on what it may use (internal/vm), and tells its
-- clients what happens on an event bus (internal/events). An operation that holds the mutex of
-- its component is one step here, and an interleaving of calls is a list of steps. A method
-- returns the new state; an error is a value of the component's own error type, its text left out.
--
-- Prelude: tests, lists, maps and the integers of Go, shared by all.
-- Network/Address: IPv4 addresses and their dotted texts (uint32ToIP, net.ParseIP on such texts;
--   the IPv6 spelling of an IPv4 address, which net.ParseIP reads too, is not modelled).
-- Network/Ipam: internal/network/ipam.go. `Subnet` has the fields of the Go struct; uint32
--   arithmetic is modulo 2 ^ 32. The scan of AllocateAvoiding runs over the bcast - (gateway + 1)
--   addresses of the guests' range, the loop's own bound. ParseSubnet begins where net.ParseCIDR
--   has given the address and the prefix length of an IPv4 CIDR.
-- Network/SubnetPool: internal/network/subnetpool.go, its loop of 4096 rounds.
-- Network/Firewall: renderNftables of internal/network/nftables.go. A rule is the list of its
--   matches and its verdict; Firewall/Rules builds the chains in the order in which the script
--   prints them, and Firewall runs a packet through them. A CIDR is the range of its addresses.
--   What a packet meets in the kernel (the first rule that decides, the accept policy) is the
--   documented meaning of the printed expressions.
-- Network/Nflog: internal/network/nflog.go on bytes, numbers under 256, on a host of either byte
--   order. The walks run on fuel, the number of bytes left, since each round takes some.
-- Network/FlowLog: internal/network/flowlog.go, from the packet that the netlink decoder has
--   read. Times are naturals that need not grow.
-- Network/Manager: internal/network/manager.go, with IngressClash of nftables.go in Network/Clash: Manager has the
--   state, Create, Update and Attach the operations, Reach the steps. A record that is
--   replaced in Go is replaced here under its name. What nft, the store, the bridge and the port filter answer to
--   a call are arguments, and so is what the validators of a request say. The operations under applyMu are one step
--   each, but a creation is two, between which any operation may come. Not modelled: Reconcile, ReserveVM, the
--   reading of statuses and leases.
-- Events: internal/events/bus.go. A subscription's pointer is its place in a list, its channel
--   the list of what it has not read. Events.Session runs the bus with any calls and reads.
-- Vm/IoLimits: internal/vm/iolimits.go. Vm/IdPool: the pool of internal/vm/jailid.go.
-- Vm/Admission: admit and SetLimits of internal/vm/lifecycle.go, internal/vm/quota.go, and the
--   reserve of internal/vm/diskguard.go. MB are native naturals; Go's int64 sums are taken without
--   overflow. Vm/Admission/Bounded declares the steps: launches admitted and released, machines
--   started, stopped and forgotten, disk reserved and given back; Vm/Admission/Reach adds the end of a restore of
--   a running machine (Restore of internal/vm/manager.go), which nothing admits.
-- Vm/ConsoleLog: internal/vm/consolelog.go. The two files of a log are values; renaming, opening
--   and storing may fail at each operation, as its Disk says.
-- Labels: internal/labels/labels.go.
-- Vm/DiskGuard: watchDisk and budgetReader of internal/vm/diskguard.go.
-- Orch: orchestrator/orch, on the data of functions, machines and labels in Orch.antt. SpecHash is a parameter.
--   Orch/Plan: persistentActions of plan.go. Orch/Policy: sameRules and networkUpdates. Orch/Project: planFor,
--   where netip's test for overlapping prefixes is a parameter, and Orch/Budget: budget and memOf, where the
--   store's memory of an image is one. Orch/Supervise: superviseOne and failedStart of run.go. Orch/Rollout:
--   rollout.go, from where the plan of the new specification is accepted. Orch/State: state.go.
--   The engine is a program of its own: what its calls answer is an argument, and what they do to a function's
--   machines (a machine goes by its id, a label patch is merged as Labels merges it, a start brings one more
--   machine, a destroy may fail) is declared where it is used, in Plan/Performed, Policy/Updates, Supervise/Carried and Supervise/Alone.
-- Spec/Interpolate: expand of orchestrator/spec/interpolate.go on bytes; its fuel is the number of bytes left.
-- Loops over a list are recursions on it; those over a range of numbers run for the number of
--   rounds that the source's own bound gives; the others run on the fuel named above.
-- Not modelled: the life cycle of a machine with its processes, cgroups and disks
--   (internal/vm/manager.go, internal/jailer, internal/storage), bridges and
--   TAPs, the bridge table (internal/network/portfilter.go), images and builds, the record store, the HTTP API,
--   the command line, and of the orchestrator the cycles' goroutines, the reading of specifications and the
--   engine's client. They are input and output for the most part.
mod Prelude
pub mod Network
pub mod Orch
pub mod Spec
pub mod Events
pub mod Vm
pub mod Labels
