-- ===== src/Hosts/Janitor.antt =====
-- src/hosts/janitor.py: `reap_expired_hosts`.
pub mod Failed
use drukbox.Base.{ℕ, Bool, true, false, none, some, List, [], ◌∷◌, map, ltb, keep_if}
use drukbox.Base.Op.{Result, ok, pure, attempt, ◌>>=◌, ◌>>◌}
use drukbox.Hosts.Model.{Host, Error}
use drukbox.Hosts.World.{Env, Act, query, utc_now, await_others}
use drukbox.Hosts.Lifecycle.{delete_host}

-- `expires_at IS NOT NULL AND expires_at < now`
abbrev pub has_expired : ℕ → Host → Bool
has_expired now h = elim h.expires_at [ none ↦ false | some end ↦ ltb end now ]

module _ (env : Env) where
  unfoldable pub noted : ℕ → Result Error Bool → List ℕ → Act (List ℕ)
  noted i (ok true) others = pure (i ∷ others)
  noted i _ others = pure others

  -- One delete after another, each in a session of its own: a host that is gone, a failure and a
  -- host that was renewed meanwhile are passed over.
  unfoldable pub reap : List ℕ → Act (List ℕ)
  unfolding noted
  reap [] = pure []
  reap (i ∷ ids) = do
    deleted ← attempt (delete_host env true false true i)
    others ← reap ids
    noted i deleted others

  -- `reap_expired_hosts`
  unfoldable pub reap_expired_hosts : Act (List ℕ)
  unfolding reap
  reap_expired_hosts = do
    now ← utc_now env
    expired ← query env (λ db. map (λ h. h.id) (keep_if (has_expired now) db.hosts))
    await_others env
    reap expired
