-- ===== src/Lib.antt =====
-- A model of secure-store, a server that keeps encrypted objects in buckets and hands them out
-- over HTTP to users and to holders of access keys.
--
-- The parts. `router.go` reads requests and calls a `CompoundStore` (`storeend.go`), an
-- `AccessStore` (`access/`) and a `UserStorage` (`users/`). The compound store calls three stores
-- in turn, for metadata (`metadata/`), for encryption keys (`security/`) and for data
-- (`storage/`), and enciphers the data on their way. Ids are checked by `sanitizer.go`. `main.go`
-- chooses the stores by its environment, and `client/` talks to the routes.
--
-- Files. Prelude has the shared names, GoMap a Go map as an association list, Effects Go's
-- results: a call returns, returns an error or panics, and leaves its object changed. ObjectTable
-- is the abstract specification of a store, a table of buckets and objects. Storage, Security and
-- Metadata have the interfaces of the three stores as records; their children Memory model
-- `storage/memory.go`, `security/memory.go` and `metadata/memory.go` method by method (`NewBucket`
-- is `new_bucket`, and so on), with the agreement with the table beside them; Storage/Fs models
-- `storage/fs.go`, with its paths, over the calls of package os. Cipher models
-- `CreateStreamReader`, Compound the methods of `CompoundStore` over the three interfaces,
-- Compound/Memory the compound that `main.go` builds of the stores in memory. Regexp and Sanitizer
-- model `sanitizer.go` with what it uses of package regexp, Base64 what is used of
-- encoding/base64. Access models `access/access.go`, Access/Memory `access/memory.go` with its
-- goroutines: `Step` is one call, answer, cancellation, kill, timer or tick, and `Reach` any
-- sequence of them. Access/Redis models `access/redis.go`, its children the store and what is read
-- back of a key; Access/Sql `access/sql.go`, its child Store the methods, Steps the interleavings
-- of its goroutines, Uses the counting. Metadata/Sql models `metadata/sql.go`. Users and
-- Users/Memory model `users/users.go` and `users/memory.go`. Router/Objects and Router/Api model
-- the routes of `router.go`, Router/Gate and Router/Roles have the theorems about them,
-- Router/Stored says what they do for a request that is in order, and Router/Routes has which
-- handler is registered for a method and a path. Text, Url and Http have what is used of texts,
-- net/url and net/http. Client models `client/client.go`; Client/Requests is about its URLs,
-- Client/Headers about its headers, Client/EndToEnd joins it with the handlers, Uploaded,
-- Downloaded and Kept follow an upload and a download through both, and Unlocked a download with
-- an access key. Startup models `main.go`, Startup/Numbers what it uses of strconv, Startup/Root
-- the root user, Startup/Domains the domains. Client/Answers says what a call makes of a response.
-- Cli models `cli/cli.go`, its child Operations the operations and the loop, Cli/Finished is about
-- the end of its loop. Storage/Fs/Opened models `NewFsStorage`. IReader models `ireader.go`:
-- `Step` is what one goroutine does between two waits, `Run` a sequence of steps with what is seen
-- of them. Tests has the concrete inputs.
--
-- Choices. `DataFromReader` of gin reads the data in the handler and panics if they cannot be
-- sent, so `send_data` in Router says whether the handler goes on: the data can be read to the end
-- and are not longer than announced, which net/http would refuse; that a client goes away
-- meanwhile is left out. Numbers are natural numbers and bytes are numbers below 256, which the
-- theorems that need it ask for; the counter of an access key wraps at 2^64 as written. Times are
-- numbers on the clock of `time.Now`. Every mutex of the stores in memory is held for the whole of
-- a method, so a method is one step; the methods of `FsStorage` let go of it before they call
-- package os, and are modelled one after the other; a call of the access store in memory is one
-- step, and so is what one of its goroutines does with an answer. A step of `access/sql.go` is
-- what a goroutine does while it has the mutex, up to a send that waits. The loop of `cli/cli.go`
-- runs until Exit or a failure; in the model it runs on fuel, over a list of the answers that the
-- prompts will give, and a prompt behind the last one fails. A round uses up an answer, so more
-- fuel than there are answers is enough; all other recursions are structural. The order in which
-- `range` visits a map is that of the association list.
--
-- Parameters. The calls of package os, the Redis server with its client library, the marshalling
-- of protocol buffers, the block cipher of crypto/aes, crypto/rand, argon2, the UUID parser and
-- the binding and marshalling of JSON are parameters, as are gorm, gin's binding of requests and
-- its answers, the network, what start-up finds outside, and the answers of promptui's prompts.
-- The one thing asked of the cipher is that it gives bytes. The contracts asked of the three
-- stores are those of Compound/Contract, and Compound/Memory has them for the stores in memory;
-- those asked of Redis and of the marshalling are in Access/Redis/Loaded, those asked of package
-- os in Storage/Fs/Kept, those of gorm in Metadata/Sql/Rows and Access/Sql/Uses, those of gin and
-- the network in Client/EndToEnd: they are asked for requests that Client/Headers calls well
-- formed only, for URLs without escapes, and for the routes that the client calls, and that
-- `http.NewRequest` accepts a URL is a hypothesis of each theorem about it. net/http tells the
-- length of a small body also where the handler announces none, so a download tells one of the two
-- lengths.
--
-- Not modelled. The generated `access/access.pb.go`; opening and migrating a database, which are
-- calls of gorm only; logging, progress bars, searching in a list of choices, and the contents of
-- the templates and of the icon that three routes serve.

pub mod Prelude
pub mod GoMap
pub mod Text
pub mod Url
pub mod Effects
pub mod ObjectTable
pub mod Storage
pub mod Security
pub mod Metadata
pub mod Cipher
pub mod Compound
pub mod Regexp
pub mod Sanitizer
pub mod Access
pub mod Base64
pub mod Users
pub mod Router
pub mod Client
pub mod Http
pub mod Cli
pub mod IReader
pub mod Startup
pub mod Tests
