-- ===== src/Pool/Reuse.antt =====
-- What the pool key leaves out.
use ps5_ezremote_server.Prelude.{ℕ, ◌≡◌, refl, sym, ap, ◌∙◌, true, false, none, some, List, [], ◌∷◌}
use ps5_ezremote_server.Outcome.{returns}
use ps5_ezremote_server.Host.{
  HostInfo, archive_org, client_kind, client_pool_key, client_type_http_server,
  http_server_archiveorg,
}
use ps5_ezremote_server.Pool.Scanning.{scan_idle-fresh}
use ps5_ezremote_server.Pool.{
  Pool, update, bucket_of, put_back, destroy_all, too_old, take_idle, finish_acquire,
  acquire_remote_client,
}

-- The same server as `host`, as an archive.org one.
abbrev pub as_archive_org : HostInfo → HostInfo
as_archive_org host = record host {
  type = client_type_http_server;
  http_server_type = http_server_archiveorg;
}

client_pool_key-as_archive_org :
    (host : HostInfo)
    → host.type ≡ client_type_http_server
    → client_pool_key (as_archive_org host) ≡ client_pool_key host
client_pool_key-as_archive_org host http =
    ap (λ t. client_pool_key (record host { type = t; http_server_type = http_server_archiveorg }))
      (sym http)
    ∙ (unfold client_pool_key in refl)

module _ (host : HostInfo) (now address c : ℕ) (rest : List ℕ) (s : Pool) where
  -- A client of any class that waits for an HTTP host, first in its vector and not too old, is
  -- handed out to a request for the same URL and login on archive.org, which asks for another
  -- class.
  pub acquire-as_archive_org :
      host.type ≡ client_type_http_server
      → bucket_of (client_pool_key host) s.idle ≡ c ∷ rest
      → too_old now s c ≡ returns false
      → (s' : Pool) × (acquire_remote_client (as_archive_org host) true now address s
          ≡ returns (some c, s'))
        × (s'.object ≡ s.object)
        × (client_kind (as_archive_org host) ≡ some archive_org)
  acquire-as_archive_org http waiting fresh = (
    record s {
      idle_since = update s.idle_since c none;
      idle = put_back (client_pool_key (as_archive_org host)) rest s.idle;
    },
    (unfold acquire_remote_client take_idle destroy_all finish_acquire in
        rw
          (client_pool_key-as_archive_org host http, waiting, scan_idle-fresh now c rest [] s fresh)
          refl),
    refl,
    (unfold client_kind in refl),
  )
