-- ===== src/Lib.antt =====
-- lvs-nginx-controller: a controller that keeps the Linux virtual server (IPVS) in line with the
-- nginx ingress pods and the layer 4 ports of a Kubernetes cluster.
--
-- The parts, and the files that model them:
-- - Validate: `ValidateIPv4` and `ValidatePort` (pkg/controller/utils.go). Strings are lists of
--   bytes (Base/Text); `strconv.Atoi` of 64 bits is Base/Text/Number, `strings.Split` Base/Text.
-- - Store: `LBStore` and `L4Compare` (pkg/controller/utils.go). A Go map is an association list
--   (Base/Dict); `range` goes through it in the order of the list, one of the orders that Go may
--   take. `reflect.DeepEqual` of maps is Base/Dict/DeepEqual.
-- - Config: the record and the flags of pkg/config/config.go. What reads the command line is a
--   parameter.
-- - Net: `net.IP`, its `Equal`, and the parser of IPv4 texts. Nil is the empty list of bytes.
-- - Ipvs: pkg/provider/ipvs/ipvsdr.go. Ipvs/System has the libraries, the shell and the random
--   numbers that the code calls, as a parameter; Ipvs/Go the results of such calls, with `crash`
--   for a panic; Ipvs/Manager has `LvsManager` with one function per method, of the same name in
--   the spelling of this language (`DelRServer` is `del_r_server`). Ipvs/Table is a reference table
--   of the kernel, and `IsKernel` says that a handle's calls act on it, with the panics of libipvs
--   on addresses that it cannot pack; the theorems on what is served assume this, and Tests has a
--   system in memory where it holds.
-- - Controller: pkg/controller/controller.go. Controller/Cluster has pods, config maps and the
--   client that lists them, a parameter; Controller/State the fields of `LoadBalancerController`;
--   Controller/Listing `listNginx` and `listCm`; Controller/Handlers `Initial`, `updatePorts`,
--   `addrAddFunc` and `addrUpdateFunc`; Controller/Worker the body of `processItem`;
--   Controller/Steps the runs, in which handlers and workers take turns in any order, each of which
--   is one whole under the lock. Controller/Threads has the goroutines that `Run` starts, the two
--   informers and the workers, with the mutex, the condition variable and the waits on it: what a
--   goroutine does between a lock and the next wait or unlock is one turn. `Signal` wakes any one
--   of those that sleep, and a goroutine that is woken up locks again before it looks.
-- - Command: the options, their flags, `RunController` and, in Command/Main, the main function with
--   the application of the command-line library (cmd/lvs-controller).
-- - Api: the custom resource `Configuration` (pkg/apis/lvscontroller/v1alpha1/types.go) in a heap of
--   arrays, and in Api/DeepCopy the generated copies (zz_generated.deepcopy.go beside it). A slice
--   is nil or covers one whole array. `ObjectMeta.DeepCopyInto` of Kubernetes is a parameter.
-- - Informers: the factory of shared informers (pkg/client/informers/externalversions). A type is
--   its name, the start of a goroutine is an event, and each call of the factory is one whole under
--   the lock that it holds. Informers/Configurations has the informer of configurations, the
--   interfaces through which the factory gives it, and the lister on its indexer.
-- - Listers: the lister (pkg/client/listers/lvscontroller/v1alpha1), over an indexer.
-- - Clientset: the typed client of configurations and, in Clientset/Fake, its fake
--   (pkg/client/clientset/versioned/typed/lvscontroller/v1alpha1). A request is the chain of calls
--   that builds it. Clientset/Connect has how the clients are made from a configuration of the
--   connection.
--   Clientset/Simple is the simple fake clientset (pkg/client/clientset/versioned/fake).
-- The other modules under these hold proofs, each named for what it proves.
--
-- How the parts interact: an event calls a handler, which validates what it reads, compares it
-- with what is known, writes the result into one of two stores and sends a pointer to that store
-- on a channel. A worker takes a pointer, reads the store as it is by then, and calls the manager
-- for each address and port. The channel holds pointers here too (`Pointer`, `deref`), since the
-- stores change between sending and receiving.
--
-- Bounds: the channel has capacity 3. Ports are the low 16 bits of what `Atoi` returns, the timeout
-- the low 32, the mark likewise. All loops are recursions on the list that they go through; the
-- printing of a number takes as many rounds as the number, of which it needs one for each digit.
--
-- Not modelled: logging; panics that come from writing to a nil map; the closing of the channel
-- at the end of `Run`, which the program never gets to; the profiling servers of the main
-- function; the registration of types with the schemes of Kubernetes; the fake of the discovery
-- client; and vendored libraries, the tracker and the reactions of the simple fake clientset
-- among them. `addrAddFunc` takes no lock; its write is one whole between two turns, and a write in
-- the middle of another goroutine's turn, which Go calls a race, is left out. The custom resource
-- and its client are code that the controller does not call.
pub mod Base
pub mod Net
pub mod Validate
pub mod Store
pub mod Config
pub mod Ipvs
pub mod Controller
pub mod Command
pub mod Api
pub mod Informers
pub mod Clientset
pub mod Listers
mod Tests
