-- ===== src/Hosts/Service/Sound.antt =====
-- The database stays sound under any calls.
use drukbox.Base.{List, [], ◌∷◌, false}
use drukbox.Hosts.World.{Env, World}
use drukbox.Hosts.Service.{Call, post, renew, delete, maintain, reap, serve, serve_all}
use drukbox.Hosts.Invariant.Defs.{OthersKeep, Sound}
use drukbox.Hosts.Invariant.Requests.{get_or_create_host-Sound}
use drukbox.Hosts.Invariant.Maintenance.{
  renew_host-Sound, delete_host-Sound, maintain_pool-Sound, reap_expired_hosts-Sound,
}

serve-Sound :
    (env : Env) → OthersKeep env → (c : Call) (w : World) → Sound w → Sound (serve env c w)
unfolding serve
serve-Sound env rely (post r key) w s = (get_or_create_host-Sound env rely r key).at w s
serve-Sound env rely (renew i end) w s = (renew_host-Sound env rely i end).at w s
serve-Sound env rely (delete i) w s = (delete_host-Sound env rely false false false i).at w s
serve-Sound env rely (maintain shuffle) w s = (maintain_pool-Sound env rely shuffle).at w s
serve-Sound env rely reap w s = (reap_expired_hosts-Sound env rely).at w s

-- Any calls, creates, renewals, deletes, ticks of the pool and sweeps of the janitor, each ending as
-- it may, leave a sound database sound while the other requests keep it so between any two
-- statements: ids, names and idempotency keys are unique, every key has its host, no unclaimed pool
-- member belongs to a service account, and every active host has an activation time.
pub serve_all-Sound :
    (env : Env)
    → OthersKeep env
    → (cs : List Call) (w : World) → Sound w
    → Sound (serve_all env cs w)
unfolding serve_all
serve_all-Sound env rely [] w s = s
serve_all-Sound env rely (c ∷ cs) w s =
    serve_all-Sound env rely cs (serve env c w) (serve-Sound env rely c w s)
