-- ===== src/Tests/Networks.antt =====
-- The theorems about the tailnet, at concrete inputs.
use drukbox.Base.{◌≡◌, refl, none, some, List, [], ◌∷◌, lookup}
use drukbox.Base.Op.{Result, ok, ◌>>=◌}
use drukbox.Base.Keeps.{Outcome}
use drukbox.Networking.Api.{
  Api, Tailnet, discover, release, replied, Device, NetworkFault, get_access_token, delete_device,
  serve_all,
}
use drukbox.Networking.Api.Live.{IsLive, serve_all-IsLive}
use drukbox.Networking.Api.Deleted.{IsDeleted, IsFailed, delete_device-IsSettled}
use drukbox.Networking.Waiter.{
  Waiter, start, pending, resolved, at_listing, register, test_loop, take_listing, registers, tests,
  lists, Reach, here, next,
}
use drukbox.Networking.Waiter.Served.{IsServed, Reach-IsServed}
use drukbox.Networking.Waiter.Alone.{first_id, poll_all, await_alone, poll_all-await_alone}

abbrev tailnet : Tailnet
tailnet = record {
  reply = λ n r. replied 200 "" (
      some (record {
        members = ("access_token", "token") ∷ ("expires_in", "3600") ∷ [];
        devices = some [];
      }));
  delay = λ n. 1;
}

abbrev api : Api
api = record {
  oauth_client_id = "id";
  oauth_client_secret = "secret";
  tailnet = "example.ts.net";
  auth_key_tags = "tag:box" ∷ [];
  access_token = none;
  expires_at = 0;
  clock = 1000;
  turn = 0;
  asked = [];
}

-- The second call uses the token of the first.
token_kept : (get_access_token tailnet (serve_all tailnet (discover ∷ []) api).1).0 ≡ ok "token"
unfolding get_access_token serve_all ◌>>=◌
token_kept = refl

serve_all-IsLive_example :
    Outcome
      (λ token api'.
        IsLive tailnet api.clock token
          (serve_all tailnet (discover ∷ release "d" ∷ []) api).1.clock)
      (λ e api'. Unit {0})
      (get_access_token tailnet (serve_all tailnet (discover ∷ release "d" ∷ []) api).1)
serve_all-IsLive_example = serve_all-IsLive tailnet (discover ∷ release "d" ∷ []) api refl refl

delete_device-IsSettled_example :
    Outcome
      (λ u. IsDeleted tailnet "d" api)
      (IsFailed tailnet "d" api)
      (delete_device tailnet "d" api)
delete_device-IsSettled_example = delete_device-IsSettled tailnet "d" api

abbrev box : Device
box = record { id = "n1"; hostname = "box" }

abbrev Listing : Result NetworkFault (List Device) → Type 0
Listing reply = reply ≡ ok (box ∷ [])

abbrev waiting : Waiter
waiting = record { waiters = ("box", pending) ∷ []; poller = at_listing }

reached : Reach Listing start (take_listing (ok (box ∷ [])) (test_loop (register "box" start)))
unfolding test_loop register
reached = next (next (next here (registers "box")) (tests refl)) (lists (ok (box ∷ [])) refl refl)

Reach-IsServed_example :
    IsServed Listing (take_listing (ok (box ∷ [])) (test_loop (register "box" start)))
Reach-IsServed_example = Reach-IsServed Listing _ reached

poll_all-await_alone_example :
    lookup "box" (poll_all (ok [] ∷ ok (box ∷ []) ∷ []) waiting).waiters
    ≡ some (await_alone "box" (ok [] ∷ ok (box ∷ []) ∷ []))
poll_all-await_alone_example = poll_all-await_alone "box" (ok [] ∷ ok (box ∷ []) ∷ []) waiting refl

found_box : await_alone "box" (ok [] ∷ ok (box ∷ []) ∷ []) ≡ resolved "n1"
unfolding await_alone first_id
found_box = refl
