-- ===== src/Network/Admission.antt =====
-- `ConnCounter` of network/server.rs, as the steps of the threads that share its counter.
use ferrum_kv.Prelude.{
  ℕ, zero, suc, ◌+◌, ◌-◌, ◌^◌, ◌<◌, ◌≤◌, ◌≡◌, ◌≢◌, sym, List, [], ◌∷◌, ◌++◌, arith,
}

-- A thread with a new connection: `compared` holds what it has read of the counter. A `guarded` one
-- has a `ConnGuard`, which it drops when its task ends, by a panic too.
pub data Acceptor : Type 0 where
  idle rejected guarded : Acceptor
  compared : ℕ → Acceptor

pub record Counter : Type 0 where
  pub active : ℕ
  pub acceptors : List Acceptor

-- `fetch_sub(1)`, which wraps at 0.
abbrev pub one_less : ℕ → ℕ
one_less zero = 2 ^ 64 - 1
one_less (suc n) = n

-- What one thread does, under a limit of `max` connections; 0 is no limit.
pub data Does (max : ℕ) : ℕ → Acceptor → ℕ → Acceptor → Type 0 where
  unlimited : {n : ℕ} → max ≡ 0 → Does max n idle (n + 1) guarded
  load : {n : ℕ} → 0 < max → Does max n idle n (compared n)
  full : {n current : ℕ} → max ≤ current → Does max n (compared current) n rejected
  exchange :
      {current : ℕ} → current < max → Does max current (compared current) (current + 1) guarded
  observe :
      {n current : ℕ} → current < max → n ≢ current → Does max n (compared current) n (compared n)
  release : {n : ℕ} → Does max n guarded (one_less n) idle
  forget : {n : ℕ} → Does max n rejected n idle

pub data Step (max : ℕ) : Counter → Counter → Type 0 where
  at :
      {n m : ℕ} {p q : Acceptor} (before after : List Acceptor)
      → Does max n p m q
      → Step max
          (record { active = n; acceptors = before ++ p ∷ after })
          (record { active = m; acceptors = before ++ q ∷ after })

-- The connections that are being served.
abbrev pub guards : List Acceptor → ℕ
guards [] = 0
guards (guarded ∷ ts) = suc (guards ts)
guards (idle ∷ ts) = guards ts
guards (rejected ∷ ts) = guards ts
guards (compared n ∷ ts) = guards ts

-- The runs from a fresh counter, with any number of threads.
pub data Reachable (max : ℕ) : Counter → Type 0 where
  start :
      (acceptors : List Acceptor)
      → guards acceptors ≡ 0
      → Reachable max (record { active = 0; acceptors = acceptors })
  then : {s t : Counter} → Reachable max s → Step max s t → Reachable max t

guards-append : (as' bs : List Acceptor) → guards (as' ++ bs) ≡ guards as' + guards bs
guards-append [] bs = omega arith
guards-append (guarded ∷ ts) bs = omega (arith, guards-append ts bs)
guards-append (idle ∷ ts) bs = guards-append ts bs
guards-append (rejected ∷ ts) bs = guards-append ts bs
guards-append (compared n ∷ ts) bs = guards-append ts bs

-- The counter is the number of connections that are served, and stays within the limit.
pub record Counts (max : ℕ) (c : Counter) : Type 0 where
  pub served : c.active ≡ guards c.acceptors
  pub limited : 0 < max → c.active ≤ max

one_less-suc : (n k : ℕ) → n ≡ suc k → one_less n ≡ k
one_less-suc zero k e = ground (arith, e)
one_less-suc (suc n) k e = omega (arith, e)

does-Counts :
    (max n m : ℕ) (p q : Acceptor) (before after : List Acceptor)
    → Does max n p m q
    → Counts max (record { active = n; acceptors = before ++ p ∷ after })
    → Counts max (record { active = m; acceptors = before ++ q ∷ after })
does-Counts max n m p q before after (unlimited z) c = record {
  served =
      omega (arith, c.served, guards-append before (p ∷ after), guards-append before (q ∷ after));
  limited = λ l. omega (arith, l, z);
}
does-Counts max n m p q before after (load l) c = record {
  served =
      omega (arith, c.served, guards-append before (p ∷ after), guards-append before (q ∷ after));
  limited = c.limited;
}
does-Counts max n m p q before after (full l) c = record {
  served =
      omega (arith, c.served, guards-append before (p ∷ after), guards-append before (q ∷ after));
  limited = c.limited;
}
does-Counts max n m p q before after (exchange l) c = record {
  served =
      omega (arith, c.served, guards-append before (p ∷ after), guards-append before (q ∷ after));
  limited = λ z. omega (arith, l);
}
does-Counts max n m p q before after (observe l x) c = record {
  served =
      omega (arith, c.served, guards-append before (p ∷ after), guards-append before (q ∷ after));
  limited = c.limited;
}
does-Counts max n m p q before after release c =
    let k = guards (before ++ idle ∷ after) in
    let s : n ≡ suc k =
      omega (arith, c.served, guards-append before (p ∷ after), guards-append before (q ∷ after)) in
    record {
      served = one_less-suc n k s;
      limited = λ z. omega (arith, c.limited z, s, one_less-suc n k s);
    }
does-Counts max n m p q before after forget c = record {
  served =
      omega (arith, c.served, guards-append before (p ∷ after), guards-append before (q ∷ after));
  limited = c.limited;
}

-- In every run of any number of threads, the counter is the number of the connections that are served,
-- and under a limit there are never more of them than it allows.
pub Reachable-Counts : (max : ℕ) (c : Counter) → Reachable max c → Counts max c
Reachable-Counts max c (start ts e) = record { served = sym e; limited = λ l. omega arith }
Reachable-Counts max c (then r (at {n = n} {m = m} {p = p} {q = q} before after d)) =
    does-Counts max n m p q before after d (Reachable-Counts max _ r)
