-- ===== src/Hosts/Service.antt =====
-- The calls of src/hosts/api.py, src/hosts/pool.py and src/hosts/janitor.py, one after another on
-- one database.
pub mod Sound
use drukbox.Base.{ℕ, String, Bool, true, false, Option, none, some, List, [], ◌∷◌}
use drukbox.Base.Op.{Result, ok, err}
use drukbox.Hosts.Model.{Host, Error}
use drukbox.Hosts.World.{Env, World}
use drukbox.Hosts.Create.{HostRequest}
use drukbox.Hosts.Request.{get_or_create_host}
use drukbox.Hosts.Lifecycle.{renew_host, refresh_secret, delete_host}
use drukbox.Hosts.Pool.{maintain_pool}
use drukbox.Hosts.Pool.Batch.{Deficits}
use drukbox.Hosts.Janitor.{reap_expired_hosts}

pub data Call : Type 0 where
  post : HostRequest → Option String → Call
  renew : ℕ → Option ℕ → Call
  delete : ℕ → Call
  maintain : (Deficits → Deficits) → Call
  reap : Call

-- The world that a call leaves, however it ends.
unfoldable pub serve : Env → Call → World → World
serve env (post r key) w = (get_or_create_host env r key w).1
serve env (renew i end) w = (renew_host env i end w).1
serve env (delete i) w = (delete_host env false false false i w).1
serve env (maintain shuffle) w = (maintain_pool env shuffle w).1
serve env reap w = (reap_expired_hosts env w).1

unfoldable pub serve_all : Env → List Call → World → World
unfolding serve
serve_all env [] w = w
serve_all env (c ∷ cs) w = serve_all env cs (serve env c w)
