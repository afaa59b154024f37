-- ===== src/Proxy/Client.antt =====
-- deploy/proxy/swap.py: `Exchange`, the proxy's client of the exchange.
use drukbox.Base.{ℕ, String, Option, none, some, List, ◌==◌, if◌then◌else◌}
use drukbox.Base.Op.{Result, ok, err}

-- What `_get` gets of `/authorize`: nothing (a timeout, a refused connection), or a status with the
-- two headers of the answer.
pub data Answer : Type 0 where
  unanswered : Answer
  answered : (code : ℕ) (header credential : Option (List ℕ)) → Answer

-- What it gets of `/upstreams`: a body that is no JSON list is none.
pub data Listing : Type 0 where
  unlisted : Listing
  listed : (code : ℕ) (hosts : Option (List String)) → Listing

pub data Fault : Type 0 where
  -- Refused
  refused : Fault
  -- ExchangeUnavailable
  exchange_unavailable : Fault
  -- the KeyError of a header that is not there, the ValueError of a body or of a host
  key_error : Fault
  value_error : Fault

-- `Exchange.upstreams`, once the answer is there.
unfoldable pub read_listing : Listing → Result Fault (List String)
read_listing unlisted = err exchange_unavailable
read_listing (listed code hosts) =
    if code == 200
    then elim hosts [ none ↦ err value_error | some names ↦ ok names ]
    else err exchange_unavailable

-- `Exchange.authorize`, once the answer is there.
unfoldable pub read_answer : Answer → Result Fault (List ℕ × List ℕ)
read_answer unanswered = err exchange_unavailable
read_answer (answered code header credential) =
    if code == 403
    then err refused
    else if code == 200
    then elim header [
      | none ↦ err key_error
      | some name ↦ elim credential [ none ↦ err key_error | some value ↦ ok (name, value) ]
    ]
    else err exchange_unavailable
