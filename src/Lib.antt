-- ===== src/Lib.antt =====
-- ezRemote Server: a payload for the PS5 that fetches packages from remote servers, for background
-- installs and as background downloads, asked for over HTTP by ezRemote Client.
--
-- The parts of the program, and the files that model them:
--
-- * `Base64` is source/base64.h: `Base64::Encode` and `Base64::Decode`, which the saved passwords
--   go through. Its children `Reference` (the alphabet and RFC 4648's encoding), `Encoding`,
--   `Decoding` and `RoundTrip` hold the proofs. Buffers are lists of bytes, sizes are 64-bit and
--   wrap, and an access outside of a buffer is an outcome of its own (`Outcome`).
-- * `Host` is `HostInfo` of source/config.h, the types of source/clients/remote_client.h, and
--   `ClientPoolKey` and the choice of a class of source/server/http_server.cpp.
-- * `Pool` is the client pool of source/server/http_server.cpp: `AcquireRemoteClient`,
--   `ReleasePooledClient`, `ReleaseRemoteClient` and `ClearClientPool`. Clients are addresses in a
--   heap, so that a use after `delete` and a client handed out twice can be told. A vector is a
--   list with its back first. The children state the order of the pool (`Invariant`), count clients
--   (`Counts`) and prove what the operations promise (`Scanning`, `Acquiring`, `Safety`,
--   `Returning`, `Kept`, `Reuse`, `Reachable`).
-- * `History` is `BgDownloadData` of source/config.h, and the rows and members that
--   `SaveBgDownloadData` of source/config.cpp writes to the history file.
-- * `Downloads` is `DownloadFilesThread` of source/server/http_server.cpp with the handlers of
--   /download_url, /clear_download_history and /get_download_state, and the pause of the thread.
--   The thread is a state machine: a phase says where it is, and one step goes up to the next
--   answer of the network. A run is a list of events in any order, so that a theorem on runs holds
--   for every interleaving of the thread and the handlers at these points. The children state the
--   order of the list (`Invariant`, `Safety`), which rows survive (`Same`, `Rows`), the retries
--   (`Progress`, `Tries`, `Allowance`, `Bound`), rest mode (`Stuck`, `RestMode`) and the replies
--   (`Handlers`).
-- * `Text` is source/util.h: `Split` and `ReplaceAll` (`Find`, `Split`, `Replace`), the trims,
--   `UrlHash` (`Hash`), over a parameter for the MD5 digest, and `append_json_escaped` (`Escape`),
--   which the notifications use.
-- * `Transfer` is `Get` and `GetRange` of source/clients/nfsclient.cpp, smbclient.cpp and
--   sftpclient.cpp. Their three loops are one with a different buffer. The protocol library is a
--   parameter, `Library`, and `Contract` states its documented behaviour (`Serves`) and what a
--   transfer promises. `Range` and `Paths` are about the two forms of `GetRange`, `Success` says
--   when it succeeds, and `Whole` is about `Get`.
-- * `Ftp` is source/clients/ftpclient.cpp, over a parameter for the sockets (`Sockets`) and one for
--   local streams (`Streams`). `Reader` is `Readline`, with a caller's buffer as a list of its
--   bytes: `Lines`, `Copies` and `Ends` read a line from a stream that is cut in any way, `Total`
--   is about a buffer that is full, `Turns` and `Termination` about the end of the loop. `Control`
--   is the control handle, `ReadResponse`, `FtpSendCmd` and the commands of one line, with
--   `Response` and `Replies` on what a server sends; the network is a part of the handle's state,
--   and a method is an action on it. `Address` is the address in the reply to PASV. `Channel` is
--   `FtpAccess` with both ways to open a data connection (`Passive` is about the address), `Files`
--   is `FtpRead`, `FtpWrite`, `FtpXfer`, `Get` and `Put`, `Raw` is a new client and the operations
--   that pass their arguments on, and `Remote` is `Connect`, `Size`, `Head`, and both forms of
--   `GetRange` (`Arrivals`, `Ranges`, `GetRange`, `Buffers`, `Restart`, `Guards`). A data handle
--   that was never set is a value of its own, and its use is `undefined`.
-- * `Http` is source/clients/baseclient.cpp, over a parameter for the HTTP library, which gives the
--   chunks of a body and an error. `Paths` is about `GetFullPath`, `Received` about the receiver of
--   a body, `Ranges` about `GetRange` on a server that honours ranges.
--
-- The pool hands clients to the download thread and to the request handlers; the download thread's
-- answer to "was there a client" is an input of `Downloads`.
--
-- `Prelude` (lists, tests on numbers, case lemmas), `Words` (bytes, 64-bit sizes) and `Outcome` are
-- shared. Fuel: `encode` and `decode` give their loops one turn more than the input has bytes. A
-- turn consumes three or four of them, and the theorems on them show results, so the fuel is enough
-- there. `Split` and `ReplaceAll` have fuel for one turn more than the text has bytes, which is
-- enough for any searched string but the empty one. A ranged transfer has fuel for one turn more
-- than bytes asked for; `Get` has it as an argument. `Readline` has fuel for two turns more than
-- the buffer has bytes; `ReadResponse` and the loops of `FtpXfer` have theirs as an argument, which
-- bounds the lines of a reply and the chunks of a file. `GetRange` of the FTP client has fuel for
-- one turn more than bytes asked for. `to_string` has fuel for one digit more than the number's
-- value.
--
-- Numbers are natural. `type` and `failed_attempts` are `int` in the source; the model has no
-- negative ones. Clocks are arguments, in the source's units. What happens between the points where
-- the pool's mutex is taken is a step of its own only between operations. Data races on the list,
-- the notifications, the temporary files and the cancellation of threads are not modelled. Neither
-- are the Archive.org and WebDAV clients, the history's JSON, the file system helpers, the other
-- text helpers and the process's lifecycle, and no part of the third-party code (source/http,
-- source/inifile.c, source/dbglogger.c).
pub mod Prelude
pub mod Outcome
pub mod Words
pub mod Base64
pub mod Host
pub mod Pool
pub mod History
pub mod Downloads
pub mod Text
pub mod Transfer
pub mod Ftp
pub mod Http
