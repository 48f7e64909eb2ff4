-- ===== src/Lib.antt =====
-- The Linux userspace for microVMs in Go: the supervisor of services, the RPC channel to the host,
-- the sandbox, the unpacking and merging of layers, the writer of the initramfs, the snapshots, the
-- network, the overlays of the root and of containers, and the metrics of the eBPF probes.
--
-- The parts and their files:
--   Svcd       internal/svcd, the process manager
--     Spec, Config    config.go: the service specification and the two readers of service files.
--                     Values has the quoted texts, arrays, sizes and booleans, Lines one line of a
--                     file, Reader the two entries and LoadServiceDir, Accepted a proof about
--                     quoted texts. Both readers have the same loop in the source; here it is one
--                     definition.
--     Graph           graph.go: NewDependencyGraph and ResolveTopologicalSort. A Go map is an
--                     association list in the order of one range over it; since that order is
--                     arbitrary, the theorems hold for every one. Count, Edges, Build, Loop and
--                     Order lead to Result and Cycle.
--     Supervisor      supervisor.go: one ManagedService. Start and Stop change it under its lock,
--                     RecordExitStatus comes from the reaper of PID 1, and monitor handles an exit
--                     and the restart policy. The restart count, an int in the source, is a natural
--                     number without a bound. Start, Halts, Restart and Run have the proofs; Run is
--                     about any sequence of these events.
--     Bundle          bundle.go: an OCI bundle as a service specification.
--     CGroup          cgroup.go: the files of the cgroup of a service.
--   KarimSvcd  cmd/karim-svcd/main.go, the supervisor program: Store has the services that were made
--              and the map of them, Bridge the ServiceProvider over it, Main the boot, the reaper and
--              the shutdown. A pointer to a service is its index in the list of all services that were
--              made. Consistent, Starts, Replaced and Boot have the proofs; Consistent.Steps is the
--              relation of everything that may happen.
--   Vsock      internal/vsockd: Frame is WriteFrame and ReadFrame of protocol.go, Protocol its
--              messages, Server the dispatch of commands in server.go, Connection the loop of one
--              connection and the relay of a trace. The ServiceProvider is an interface: a record of
--              operations on a state of its own. Listeners is Serve and Close of server.go, Transport
--              is transport.go, with the addresses that Dial reads. Below Server, Effects has the
--              operation of each command, Errors its error, and Answers the proof about responses. What
--              the runtime, obsd and the system status report is constant over a connection.
--   Secd       internal/secd, the sandbox
--     Unix            the constants of golang.org/x/sys/unix and the machine that runs a filter, as
--                     parameters.
--     Names, Seccomp  seccomp.go: the BPF filters and the profiles.
--     Capabilities    capabilities.go, over a record of its two system calls.
--     Policy          secd.go: the isolation of a process, over a record of the calls of the kernel.
--                     Process is what these calls change; Sandbox and Dropping have the proofs. On
--                     Linux the calls act on the calling thread: Process is one thread, which is
--                     taken to make all calls, and the goroutine of the source may change threads.
--   Pkgd       internal/pkgd: OciSpec has the types of bundles, Paths is extract.go, and of oci.go
--              Extract is the unpacking of a layer and Inspect the manifest of an image. The calls of
--              package os are a record; Confined lets them write down what they touch, Touched says
--              what may be touched, without the tests of the source, and Parents is about symbolic
--              links.
--     Layer           layer.go: the file that lists layers. Fields and RoundTrip lead to Saved, which
--                     reads back what was written.
--     Merge           merger.go: an image archive, whose layers are extracted in order, and Layers, the
--                     merge of a configuration. Confined has the proof for archives.
--   Builder    internal/builder: Cpio is cpio.go, the newc archive of the initramfs, and Manifest is
--              manifest.go, the hashes of a build and the comparison of two; Manifest.Saved is its file.
--     Pipeline        builder.go and squashfs.go: the staging of the two trees, whose fixed contents are
--                     in Contents, and Image, which packs them and compares two builds. Packed and
--                     Reproduced have the proofs.
--   Qmp        internal/qmp/client.go: the client of the QEMU monitor over a connection. Snapshots is
--              the list of snapshots, Answered the proof that a command is answered.
--   Snapshot   internal/snapshot/orchestrator.go: the snapshots of a machine over QMP, with the guest
--              frozen over vsock (Rpc is its call of the server in Vsock). Machine is a guest and a
--              hypervisor of which any call may fail, Save the proof.
--   Netd       internal/netd/netd.go: Message has the bytes of the netlink requests, Socket a socket
--              from its opening to the acknowledgement, Configure the operations. Attributes reads
--              attributes as the kernel does, and Requests has the proofs.
--   Stored     internal/stored/stored.go: the mounts, and below it Link, which fills the root from the
--              lower directory, and Root, the two set-ups of an overlay. Missing has the proof.
--   Obsd       internal/obsd/obsd.go: the manager; Stream has its two ways to stream events, Export the
--              metrics as text, Counted the proofs.
--   Base       what they share: lists, strings as lists of bytes, signed integers, paths (Path.Up
--              is about ".." in cleaned ones), bits,
--              maps, Scanner, which is bufio.Scanner over lines, Io, calls on a world that may fail, and
--              Keeps, about what such calls keep.
--
-- How state corresponds: a method with a pointer receiver takes the record of its struct and returns
-- it; the operating system, a connection or a provider is a world W with a record of calls, and a
-- call returns the world behind it. An error is a value: an Option, or a data type with a
-- constructor for each return of an error. Where Go would panic, the model has an outcome for it. A
-- string is the list of its bytes, and case and blanks are those of ASCII. An int has 64 bits; where
-- the source converts to uint8, uint32 or int64 the wrap is written out.
--
-- Fuel: the loop of the topological sort has one unit for each service of the graph. It is enough,
-- since a service is queued only when its last dependency is taken off. The loop of a connection has
-- one unit for each frame that it reads, and one more for the end; more than the bytes to come is
-- always enough. The relay of a trace has one unit for each byte that is to come, and one more: a
-- frame has four bytes or more. readLine and Execute of the QMP client have one unit for each line;
-- more than the lines to come is enough. All other loops are structural.
--
-- Parameters: the numbers of unix.SYS_* and of netlink with the layout of its structs, the BPF machine
-- with its documented behaviour, the float64 of a CPU quota with strconv.ParseFloat, what %q and %d
-- print, JSON, SHA-256, archive/tar and compress/gzip, net.ParseIP, the clock and random numbers, the
-- loading and the maps of eBPF probes, and the calls of the operating system, to which, for a bundle,
-- those of internal/system and the overlay of internal/stored count. What filepath.Walk, os.Open and
-- os.Readlink give to the cpio archive is part of its items, and what os.ReadDir gives of the lower
-- directory is a tree. What a socket delivers until its deadline, and what Accept or a ring buffer give
-- one after the other, is a list that ends.
--
-- Not modelled: the other programs under cmd, and the flags and the set-up at the head of
-- karim-svcd; internal/system, which reads /proc; the methods of transport.go that only pass a call
-- on; the probes under ebpf and the C of init.
-- Log lines, the goroutines that copy output, and times in results are left out where the rest of a
-- function is modelled.
pub mod Base
pub mod Vsock
pub mod Secd
pub mod Svcd
pub mod Builder
pub mod Snapshot
pub mod Pkgd
pub mod KarimSvcd
pub mod Qmp
pub mod Netd
pub mod Obsd
pub mod Stored
