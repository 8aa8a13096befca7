-- ===== src/Net/Fetch.antt =====
-- lib/safe-fetch.ts, lines 101 to 243: a request and its redirects. What the name server and the
-- servers answer may differ at every hop: both are parameters, and so is the reading of urls. The
-- time limit and the headers are left out.
use mathlib.Core.Option
use coinos_server.Base.{
  ℕ, zero, suc, ◌+◌, ◌≤◌, ◌≡◌, refl, ap, ◌∙◌, Bool, true, false, not, ◌||◌, Option, none, some,
  List, [], ◌∷◌, ltb, if◌then◌else◌, arith, inl, inr, Bool-cases,
}
pub mod Public
use coinos_server.Net.Addresses.{Ip, is_blocked_ip}

-- A url that could be read: whether its scheme is http or https, whether its host ends in .onion,
-- and the host.
pub record Url : Type 0 where
  pub http : Bool
  pub onion : Bool
  pub host : ℕ

-- What a host name is: an address, or what the name server says, where `none` is an error.
pub data Lookup : Type 0 where
  literal : Ip → Lookup
  resolved : Option (List Ip) → Lookup

pub data Answer : Type 0 where
  -- a redirect, `none` if its target is no url
  redirect : Option Url → Answer
  -- the length of the body, and whether it is JSON
  body : ℕ → Bool → Answer
  broken : Answer

-- The address that is connected to, or the url whose host name is handed on as it is.
pub data Target : Type 0 where
  address : Ip → Target
  handed_on : Url → Target

pub data Ending : Type 0 where
  invalid_url : Ending
  unsupported_scheme : Ending
  blocked_host : Ending
  unresolved : Ending
  too_many_redirects : Ending
  bad_redirect : Ending
  too_large : Ending
  invalid_json : Ending
  failed : Ending
  fetched : Ending

abbrev pub some_blocked : List Ip → Bool
some_blocked [] = false
some_blocked (i ∷ is) = is_blocked_ip i || some_blocked is

pub data Resolution : Type 0 where
  to : Ip → Resolution
  refuses : Ending → Resolution

abbrev first_if : Bool → Ip → Resolution
first_if true i = refuses blocked_host
first_if false i = to i

unfoldable pub resolve_and_validate : Lookup → Resolution
resolve_and_validate (literal i) = first_if (is_blocked_ip i) i
resolve_and_validate (resolved none) = refuses unresolved
resolve_and_validate (resolved (some [])) = refuses unresolved
resolve_and_validate (resolved (some (i ∷ is))) = first_if (some_blocked (i ∷ is)) i

-- The connections of a request, in order, and how it ends.
pub record Trace : Type 0 where
  pub targets : List Target
  pub ending : Ending

abbrev pub stops : Ending → Trace
stops o = record { targets = []; ending = o }

abbrev connects : Target → Trace → Trace
connects t x = record { targets = t ∷ x.targets; ending = x.ending }

abbrev read_body : ℕ → Bool → Trace
read_body len json =
    stops (if ltb 2_000_000 len then too_large else if json then fetched else invalid_json)

abbrev pub target_of : Url → Resolution → Option Target
target_of u (to i) = some (address i)
target_of u (refuses _) = none

abbrev why : Resolution → Ending
why (to _) = failed
why (refuses o) = o

-- `lookup` and `respond` are what is answered when so many redirects are left.
module _ (lookup : ℕ → ℕ → Lookup) (respond : ℕ → Target → Url → Answer) where
  abbrev resolution : ℕ → Url → Resolution
  resolution n u = resolve_and_validate (lookup n u.host)

  -- Where the request goes: .onion hosts are not resolved here, others go to the validated address.
  abbrev pub connection : ℕ → Url → Option Target
  connection n u = if u.onion then some (handed_on u) else target_of u (resolution n u)

  abbrev pub last_answer : Answer → Trace
  last_answer (redirect _) = stops too_many_redirects
  last_answer (body len json) = read_body len json
  last_answer broken = stops failed

  abbrev pub follow : (Url → Trace) → Answer → Trace
  follow next (redirect (some v)) = next v
  follow next (redirect none) = stops bad_redirect
  follow next (body len json) = read_body len json
  follow next broken = stops failed

  abbrev pub connect : ℕ → Url → (Answer → Trace) → Option Target → Trace
  connect n u k none = stops (why (resolution n u))
  connect n u k (some t) = connects t (k (respond n t u))

  abbrev pub visit : ℕ → Url → (Answer → Trace) → Trace
  visit n u k = if u.http then connect n u k (connection n u) else stops unsupported_scheme

  unfoldable pub fetch_once : ℕ → Url → Trace
  fetch_once zero u = visit zero u last_answer
  fetch_once (suc n) u = visit (suc n) u (follow (λ v. fetch_once n v))
