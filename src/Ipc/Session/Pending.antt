-- ===== src/Ipc/Session/Pending.antt =====
-- The requests that wait for their response, each with the slot that its token names: what
-- ipc/src/lib.rs keeps of them in `user_data`.
use mathlib.Core.Path.{subst}
use mathlib.Core.Option.{some-injective}
use locasta.Base.{
  ℕ, zero, suc, ◌+◌, ◌%◌, ◌^◌, ◌<◌, ◌≡◌, refl, ap, ◌∙◌, Option, none, some, List, [], ◌∷◌, ◌++◌,
  arith, ◌==◌, length, get_or, get_elem?, set, get_or-set, is_some, replicate, ◌≤◌,
}
use locasta.Base.Counts.{one_if}
use locasta.Mempc.Onesided.Lanes.{Response}
use locasta.Ipc.Session.{remove_at}

module _ {Q : Type 0} where
  -- How many of the entries have a slot.
  abbrev pub uses : ℕ → List (ℕ × Q) → ℕ
  uses i [] = 0
  uses i ((slot, q) ∷ es) = one_if (slot == i) + uses i es

  -- The entries of a ring's values, the first of them at a position.
  abbrev pub queued : ℕ → ℕ → List Q → List (ℕ × Q)
  queued k tails [] = []
  queued k tails (q ∷ queue) = (tails % 2 ^ k, q) ∷ queued k (tails + 1) queue

  pub uses-append_one :
      (i slot : ℕ) (q : Q) (es : List (ℕ × Q))
      → uses i (es ++ (slot, q) ∷ []) ≡ uses i es + one_if (slot == i)
  uses-append_one i slot q [] = omega arith
  uses-append_one i slot q ((s, p) ∷ es) = omega (arith, uses-append_one i slot q es)

  pub uses-remove_at :
      (i j slot : ℕ) (q : Q) (es : List (ℕ × Q))
      → get_elem? es j ≡ some (slot, q)
      → uses i es ≡ uses i (remove_at es j) + one_if (slot == i)
  uses-remove_at i j slot q [] h = cc
  uses-remove_at i zero slot q ((s, p) ∷ es) h = ground arith
  uses-remove_at i (suc j) slot q ((s, p) ∷ es) h = omega (arith, uses-remove_at i j slot q es h)

  pub length-remove_at :
      (j : ℕ) (e : ℕ × Q) (es : List (ℕ × Q))
      → get_elem? es j ≡ some e
      → length es ≡ suc (length (remove_at es j))
  length-remove_at j e [] h = cc
  length-remove_at zero e (x ∷ es) h = refl
  length-remove_at (suc j) e (x ∷ es) h = ap suc (length-remove_at j e es h)

  pub queued-append_one :
      (k tails : ℕ) (q : Q) (queue : List Q)
      → queued k tails (queue ++ q ∷ [])
        ≡ queued k tails queue ++ ((tails + length queue) % 2 ^ k, q) ∷ []
  queued-append_one k tails q [] =
      ap (λ n. (n % 2 ^ k, q) ∷ []) {x = tails} {y = tails + 0} (omega arith)
  queued-append_one k tails q (p ∷ queue) =
      ap (λ es. (tails % 2 ^ k, p) ∷ es)
        (queued-append_one k (tails + 1) q queue
          ∙ ap (λ n. queued k (tails + 1) queue ++ (n % 2 ^ k, q) ∷ [])
              {x = tails + 1 + length queue} {y = tails + suc (length queue)} (omega arith))

module _ {U : Type 0} where
  -- How many slots have data.
  abbrev pub filled_in : List (Option U) → ℕ
  filled_in [] = 0
  filled_in (o ∷ ud) = one_if (is_some o) + filled_in ud

  pub filled_in-le-length : (ud : List (Option U)) → filled_in ud ≤ length ud
  filled_in-le-length [] = omega arith
  filled_in-le-length (none ∷ ud) = omega (arith, filled_in-le-length ud)
  filled_in-le-length (some u ∷ ud) = omega (arith, filled_in-le-length ud)

  pub filled_in-set :
      (ud : List (Option U)) (i : ℕ) (v : Option U)
      → i < length ud
      → filled_in (set ud i v) + one_if (is_some (get_or ud i none))
        ≡ filled_in ud + one_if (is_some v)
  filled_in-set [] i v h = absurd (omega arith)
  filled_in-set (o ∷ ud) zero v h = omega arith
  filled_in-set (o ∷ ud) (suc i) v h = omega (arith, filled_in-set ud i v (omega arith))

pub filled_in-replicate : (U : Type 0) (n : ℕ) → filled_in {U = U} (replicate n none) ≡ 0
filled_in-replicate U zero = refl
filled_in-replicate U (suc n) = omega (arith, filled_in-replicate U n)

module _ {Q U : Type 0} (Asks : Q → U → Type 0) where
  -- The data of a slot are those given with a request.
  abbrev pub Waits : List (Option U) → ℕ → Q → Type 0
  Waits ud slot q = (u : U) × (get_or ud slot none ≡ some u) × Asks q u

  abbrev pub Fits : List (Option U) → List (ℕ × Q) → Type 0
  Fits ud [] = Unit {0}
  Fits ud ((slot, q) ∷ es) = Waits ud slot q × Fits ud es

  pub Fits-append_one :
      (ud : List (Option U)) (slot : ℕ) (q : Q) (es : List (ℕ × Q))
      → Fits ud es
      → Waits ud slot q
      → Fits ud (es ++ (slot, q) ∷ [])
  Fits-append_one ud slot q [] f w = (w, tt)
  Fits-append_one ud slot q ((s, p) ∷ es) (x, f) w = (x, Fits-append_one ud slot q es f w)

  -- Other slots may be changed.
  pub Fits-set :
      (ud : List (Option U)) (slot : ℕ) (v : Option U) (es : List (ℕ × Q))
      → slot < length ud
      → uses slot es ≡ 0
      → Fits ud es
      → Fits (set ud slot v) es
  Fits-set ud slot v [] h e f = tt
  Fits-set ud slot v ((s, p) ∷ es) h e ((u, at, asks), f) = (
    (u, ground (arith, get_or-set ud slot s v none h), asks),
    Fits-set ud slot v es h (ground arith) f,
  )

  pub Fits-at :
      (ud : List (Option U)) (j : ℕ) (e : ℕ × Q) (es : List (ℕ × Q))
      → get_elem? es j ≡ some e
      → Fits ud es
      → Waits ud e.0 e.1
  Fits-at ud j e [] h f = cc
  Fits-at ud zero e ((s, p) ∷ es) h (w, f) =
      subst (λ e. Waits ud e.0 e.1) (some-injective (s, p) e h) w
  Fits-at ud (suc j) e ((s, p) ∷ es) h (w, f) = Fits-at ud j e es h f

  pub Fits-remove_at :
      (ud : List (Option U)) (j : ℕ) (es : List (ℕ × Q)) → Fits ud es → Fits ud (remove_at es j)
  Fits-remove_at ud j [] f = tt
  Fits-remove_at ud zero ((s, p) ∷ es) (w, f) = f
  Fits-remove_at ud (suc j) ((s, p) ∷ es) (w, f) = (w, Fits-remove_at ud j es f)

-- A response on the way, with the request that it answers.
pub record Reply (Q R : Type 0) : Type 0 where
  pub slot : ℕ
  pub request : Q
  pub body : R

module _ {Q R : Type 0} where
  abbrev pub asked : List (Reply Q R) → List (ℕ × Q)
  asked [] = []
  asked (r ∷ back) = (r.slot, r.request) ∷ asked back

  abbrev pub responses_of : List (Reply Q R) → List (Response R)
  responses_of [] = []
  responses_of (r ∷ back) = record { token = r.slot; body = r.body } ∷ responses_of back

  pub asked-append_one :
      (r : Reply Q R) (back : List (Reply Q R))
      → asked (back ++ r ∷ []) ≡ asked back ++ (r.slot, r.request) ∷ []
  asked-append_one r [] = refl
  asked-append_one r (s ∷ back) = ap (λ es. (s.slot, s.request) ∷ es) (asked-append_one r back)

  pub responses_of-append_one :
      (r : Reply Q R) (back : List (Reply Q R))
      → responses_of (back ++ r ∷ [])
        ≡ responses_of back ++ record { token = r.slot; body = r.body } ∷ []
  responses_of-append_one r [] = refl
  responses_of-append_one r (s ∷ back) =
      ap (λ rs. record { token = s.slot; body = s.body } ∷ rs) (responses_of-append_one r back)

  pub length-responses_of : (back : List (Reply Q R)) → length (responses_of back) ≡ length back
  length-responses_of [] = refl
  length-responses_of (r ∷ back) = ap suc (length-responses_of back)

module _ {Q R : Type 0} (Answers : Q → R → Type 0) where
  abbrev pub AreAnswers : List (Reply Q R) → Type 0
  AreAnswers [] = Unit {0}
  AreAnswers (r ∷ back) = Answers r.request r.body × AreAnswers back

  pub AreAnswers-append_one :
      (r : Reply Q R) (back : List (Reply Q R))
      → AreAnswers back
      → Answers r.request r.body
      → AreAnswers (back ++ r ∷ [])
  AreAnswers-append_one r [] f a = (a, tt)
  AreAnswers-append_one r (s ∷ back) (b, f) a = (b, AreAnswers-append_one r back f a)

module _ {Q R U : Type 0} (Asks : Q → U → Type 0) (Answers : Q → R → Type 0) where
  -- Every response was handed over with the data of a request that it answers.
  unfoldable pub ArePaired : List (U × R) → Type 0
  ArePaired [] = Unit {0}
  ArePaired ((u, r) ∷ rest) = ((q : Q) × Asks q u × Answers q r) × ArePaired rest

  pub ArePaired-append_one :
      (q : Q) (u : U) (r : R) (rest : List (U × R))
      → ArePaired rest
      → Asks q u
      → Answers q r
      → ArePaired (rest ++ (u, r) ∷ [])
  unfolding ArePaired
  ArePaired-append_one q u r [] p a b = ((q, a, b), tt)
  ArePaired-append_one q u r ((v, s) ∷ rest) (x, p) a b = (x, ArePaired-append_one q u r rest p a b)
