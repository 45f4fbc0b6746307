-- ===== src/Host.antt =====
-- source/config.h and source/clients/remote_client.h: where a client connects to, and which kinds
-- of clients there are. A string is the list of its bytes. A negative `type`, which is no
-- enumerator, is not told from another number that is none.
use ps5_ezremote_server.Prelude.{ℕ, ◌*◌, ◌++◌, Option, none, some, ◌==◌, if◌then◌else◌}
use ps5_ezremote_server.Words.{Bytes, codes, same, to_string}

-- `enum ClientType`
abbrev pub client_type_ftp : ℕ
client_type_ftp = 0

abbrev pub client_type_sftp : ℕ
client_type_sftp = 1

abbrev pub client_type_smb : ℕ
client_type_smb = 2

abbrev pub client_type_webdav : ℕ
client_type_webdav = 3

abbrev pub client_type_http_server : ℕ
client_type_http_server = 4

abbrev pub client_type_nfs : ℕ
client_type_nfs = 5

abbrev pub client_type_filehost : ℕ
client_type_filehost = 6

abbrev pub http_server_archiveorg : Bytes
http_server_archiveorg = codes "Archive.org"

abbrev pub http_server_github : Bytes
http_server_github = codes "Github"

pub record HostInfo : Type 0 where
  pub type : ℕ
  pub url : Bytes
  pub http_server_type : Bytes
  pub username : Bytes
  pub password : Bytes

-- The classes below `RemoteClient`.
pub data ClientKind : Type 0 where
  smb sftp nfs ftp webdav archive_org base : ClientKind

-- `GetMaxIdleTimeout()`, in seconds: seven days for `BaseClient` and the classes below it, and five
-- minutes for the others.
abbrev pub base_max_idle_timeout : ℕ
base_max_idle_timeout = 7 * 24 * 60 * 60

unfoldable pub get_max_idle_timeout : ClientKind → ℕ
get_max_idle_timeout base = base_max_idle_timeout
get_max_idle_timeout archive_org = base_max_idle_timeout
get_max_idle_timeout webdav = base_max_idle_timeout
get_max_idle_timeout _ = 300

-- Which class `CreatePooledClient` takes; `none` is a null pointer.
unfoldable pub client_kind : HostInfo → Option ClientKind
unfolding same
client_kind host =
    if host.type == client_type_smb
    then some smb
    else if host.type == client_type_sftp
    then some sftp
    else if host.type == client_type_nfs
    then some nfs
    else if host.type == client_type_ftp
    then some ftp
    else if host.type == client_type_webdav
    then some webdav
    else if host.type == client_type_http_server
    then (if same host.http_server_type http_server_archiveorg then some archive_org else some base)
    else if host.type == client_type_filehost
    then some base
    else none

-- `ClientPoolKey`
unfoldable pub client_pool_key : HostInfo → Bytes
unfolding to_string
client_pool_key host =
    to_string host.type
    ++ (codes "|" ++ (host.url ++ (codes "|" ++ (host.username ++ (codes "|" ++ host.password)))))
