-- ===== src/Net/Fetch/Public.antt =====
-- Where a request and its redirects connect to.
use coinos_server.Base.{
  ℕ, zero, suc, ◌+◌, ◌≤◌, ◌≡◌, refl, Bool, true, not, ◌&&◌, Option, none, some, List, [], ◌∷◌,
  arith, inl, inr, Bool-cases,
}
use coinos_server.Net.Addresses.{Ip, is_blocked_ip}
use coinos_server.Net.Fetch.{
  Url, Lookup, Answer, Target, Trace, Ending, Resolution, some_blocked, target_of, stops,
  resolve_and_validate, to, refuses, literal, resolved, address, handed_on, redirect, body, broken,
  connection, last_answer, follow, connect, visit, fetch_once,
}

abbrev pub public_target : Target → Bool
public_target (address i) = not (is_blocked_ip i)
public_target (handed_on u) = u.onion

abbrev pub all_public : List Target → Bool
all_public [] = true
all_public (t ∷ ts) = public_target t && all_public ts

abbrev pub count : List Target → ℕ
count [] = 0
count (t ∷ ts) = 1 + count ts

-- What a resolution allows is not blocked.
abbrev allowed : Resolution → Bool
allowed (to i) = not (is_blocked_ip i)
allowed (refuses _) = true

one-allowed : (i : Ip) → allowed (resolve_and_validate (literal i)) ≡ true
unfolding resolve_and_validate
one-allowed i = elim (Bool-cases (is_blocked_ip i)) [ inl e ↦ rw e refl | inr e ↦ rw (e, e) refl ]

first-allowed :
    (i : Ip) (is : List Ip) → allowed (resolve_and_validate (resolved (some (i ∷ is)))) ≡ true
unfolding resolve_and_validate
first-allowed i is = elim (Bool-cases (is_blocked_ip i)) [
  | inl e ↦ rw e refl
  | inr e ↦
      rw e (elim (Bool-cases (some_blocked is)) [ inl f ↦ rw f refl | inr f ↦ rw (f, e) refl ])
]

resolve-allowed : (l : Lookup) → allowed (resolve_and_validate l) ≡ true
unfolding resolve_and_validate
resolve-allowed (literal i) = one-allowed i
resolve-allowed (resolved none) = refl
resolve-allowed (resolved (some [])) = refl
resolve-allowed (resolved (some (i ∷ is))) = first-allowed i is

abbrev fine : Option Target → Bool
fine none = true
fine (some t) = public_target t

target_of-fine : (u : Url) (r : Resolution) → allowed r ≡ true → fine (target_of u r) ≡ true
target_of-fine u (to i) e = e
target_of-fine u (refuses o) e = refl

-- A trace with at most so many connections, all of them public.
record Good (n : ℕ) (x : Trace) : Type 0 where
  public : all_public x.targets ≡ true
  few : count x.targets ≤ n

stops-Good : (n : ℕ) (o : Ending) → Good n (stops o)
stops-Good n o = record { public = refl; few = omega arith }

module _ (lookup : ℕ → ℕ → Lookup) (respond : ℕ → Target → Url → Answer) where
  connection-fine : (n : ℕ) (u : Url) → fine (connection lookup respond n u) ≡ true
  connection-fine n u = elim (Bool-cases u.onion) [
    | inl e ↦ rw e refl
    | inr e ↦ rw e (
        target_of-fine u (resolve_and_validate (lookup n u.host))
          (resolve-allowed (lookup n u.host)))
  ]

  connect-Good :
      (m n : ℕ) (u : Url) (k : Answer → Trace)
      → ((a : Answer) → Good m (k a))
      → (t : Option Target) → fine t ≡ true
      → Good (suc m) (connect lookup respond n u k t)
  connect-Good m n u k h none e = stops-Good (suc m) _
  connect-Good m n u k h (some t) e =
      let g = h (respond n t u) in
      record { public = rw (e, g.public) refl; few = let f = g.few in omega arith }

  visit-Good :
      (m n : ℕ) (u : Url) (k : Answer → Trace)
      → ((a : Answer) → Good m (k a))
      → Good (suc m) (visit lookup respond n u k)
  visit-Good m n u k h = elim (Bool-cases u.http) [
    | inl e ↦ simp e (connect-Good m n u k h (connection lookup respond n u) (connection-fine n u))
    | inr e ↦ simp e (stops-Good (suc m) _)
  ]

  last-Good : (a : Answer) → Good 0 (last_answer lookup respond a)
  last-Good (redirect _) = stops-Good 0 _
  last-Good (body len json) = stops-Good 0 _
  last-Good broken = stops-Good 0 _

  follow-Good :
      (m : ℕ) (next : Url → Trace)
      → ((v : Url) → Good m (next v))
      → (a : Answer) → Good m (follow lookup respond next a)
  follow-Good m next h (redirect (some v)) = h v
  follow-Good m next h (redirect none) = stops-Good m _
  follow-Good m next h (body len json) = stops-Good m _
  follow-Good m next h broken = stops-Good m _

  fetch-Good : (n : ℕ) (u : Url) → Good (suc n) (fetch_once lookup respond n u)
  unfolding fetch_once
  fetch-Good zero u = visit-Good 0 zero u (last_answer lookup respond) last-Good
  fetch-Good (suc n) u =
      visit-Good (suc n) (suc n) u (follow lookup respond (λ v. fetch_once lookup respond n v))
        (follow-Good (suc n) _ (λ v. fetch-Good n v))

  -- Whatever the name server says at each hop, and whatever the servers answer, a request connects
  -- only to addresses that are not blocked, .onion hosts aside, and to at most one more than the
  -- redirects it is given.
  pub fetch_once-public :
      (n : ℕ) (u : Url)
      → (all_public (fetch_once lookup respond n u).targets ≡ true)
        × (count (fetch_once lookup respond n u).targets ≤ 1 + n)
  fetch_once-public n u = let g = fetch-Good n u in let f = g.few in (g.public, omega arith)
