-- ===== src/SessionStore/Frame.antt =====
-- src/services/sessionStore.js: which keys an operation leaves alone, whatever commands fail.
use relay_cerebro_infra.Base.{
  ℕ, String, Bool, true, false, none, ◌≡◌, refl, ◌∙◌, List, [], ◌∷◌, inl, inr, if◌then◌else◌,
  Bool-cases,
}
use relay_cerebro_infra.Redis.{Redis}
use relay_cerebro_infra.SessionStore.{Key, session, Value, key_eq, Session}
use relay_cerebro_infra.SessionStore.Exec.{
  Error, Result, ok, err, M, ◌>>=◌, ◌>>◌, pure, raise, attempt, and_then, or_else, Fault, served,
  refused, reply_lost, World, command, fate, all, redis_set, now, random_uuid, router_call,
  RouterCall,
}
use relay_cerebro_infra.SessionStore.Ops.{
  release_lock, delete_if_held, persist_session, get_session, holds_token,
}

module _ (R : Redis Key Value key_eq) where
  -- From `w` to `v` the key `k` reads the same at every time, no time passes, and no command that
  -- fails is added.
  pub record Kept (k : Key) (w v : World R) : Type 0 where
    pub same : (u : ℕ) → R.get u k v.db ≡ R.get u k w.db
    pub time : v.clock ≡ w.clock
    pub calm : w.faults ≡ [] → v.faults ≡ []

  pub Kept-refl : (k : Key) (w : World R) → Kept k w w
  Kept-refl k w = record { same = λ u. refl; time = refl; calm = λ h. h }

  pub Kept-trans : {k : Key} {w v x : World R} → Kept k w v → Kept k v x → Kept k w x
  Kept-trans a b = record {
    same = λ u. b.same u ∙ a.same u;
    time = b.time ∙ a.time;
    calm = λ h. b.calm (a.calm h);
  }

  -- `m` leaves the key `k` alone, whether it returns or throws and whatever commands fail.
  pub record Frames {A : Type 0} (k : Key) (m : M (World R) A) : Type 0 where
    pub at : (w : World R) → Kept k w (m w).1

  module _ (k : Key) where
    and_then-Kept :
        {A B : Type 0} (f : A → M (World R) B) (w : World R) (r : Result A × World R)
        → ((a : A) → Frames k (f a))
        → Kept k w r.1
        → Kept k w (and_then r f).1
    and_then-Kept f w (ok a, v) keeps h = Kept-trans h ((keeps a).at v)
    and_then-Kept f w (err e, v) keeps h = h

    pub Frames-bind :
        {A B : Type 0} (m : M (World R) A) (f : A → M (World R) B)
        → Frames k m
        → ((a : A) → Frames k (f a))
        → Frames k (m >>= f)
    unfolding ◌>>=◌
    Frames-bind m f h keeps = record { at = λ w. and_then-Kept f w (m w) keeps (h.at w) }

    pub Frames-then :
        {B : Type 0} (m : M (World R) (Unit {0})) (n : M (World R) B)
        → Frames k m
        → Frames k n
        → Frames k (m >> n)
    unfolding ◌>>◌
    Frames-then m n h g = record { at = λ w. and_then-Kept (λ _. n) w (m w) (λ _. g) (h.at w) }

    pub Frames-pure : {A : Type 0} (a : A) → Frames k (pure a)
    unfolding pure
    Frames-pure a = record { at = λ w. Kept-refl k w }

    pub Frames-raise : (A : Type 0) (e : Error) → Frames k (raise {A = A} e)
    unfolding raise
    Frames-raise A e = record { at = λ w. Kept-refl k w }

    pub Frames-if :
        {A : Type 0} (b : Bool) (m n : M (World R) A)
        → Frames k m
        → Frames k n
        → Frames k (if b then m else n)
    Frames-if true m n h g = h
    Frames-if false m n h g = g

    or_else-Kept :
        {A : Type 0} (n : M (World R) A) (w : World R) (r : Result A × World R)
        → Frames k n
        → Kept k w r.1
        → Kept k w (or_else r (λ _. n)).1
    or_else-Kept n w (ok a, v) keeps h = h
    or_else-Kept n w (err e, v) keeps h = Kept-trans h (keeps.at v)

    pub Frames-attempt :
        {A : Type 0} (m n : M (World R) A) → Frames k m → Frames k n → Frames k (attempt m n)
    unfolding attempt
    Frames-attempt m n h g = record { at = λ w. or_else-Kept n w (m w) g (h.at w) }

    pub Frames-now : Frames k (now R)
    unfolding now
    Frames-now = record { at = λ w. Kept-refl k w }

    pub Frames-random_uuid : Frames k (random_uuid R)
    unfolding random_uuid
    Frames-random_uuid = record {
      at = λ w. record { same = λ u. refl; time = refl; calm = λ h. h };
    }

    pub Frames-router_call : {A : Type 0} (c : RouterCall) (a : A) → Frames k (router_call R c a)
    unfolding router_call
    Frames-router_call c a = record {
      at = λ w. record { same = λ u. refl; time = refl; calm = λ h. h };
    }

    module _ {A : Type 0} (f : ℕ → R.Db → R.Db × A)
        (spares : (t u : ℕ) (db : R.Db) → R.get u k (f t db).0 ≡ R.get u k db) where
      fate-Kept : (fs : List Fault) (w : World R) → w.faults ≡ fs → Kept k w (fate R fs f w).1
      fate-Kept [] w e = record { same = λ u. spares w.clock u w.db; time = refl; calm = λ h. h }
      fate-Kept (served ∷ rest) w e = record {
        same = λ u. spares w.clock u w.db;
        time = refl;
        calm = λ h. cc;
      }
      fate-Kept (refused ∷ rest) w e = record { same = λ u. refl; time = refl; calm = λ h. cc }
      fate-Kept (reply_lost ∷ rest) w e = record {
        same = λ u. spares w.clock u w.db;
        time = refl;
        calm = λ h. cc;
      }

      pub Frames-command : Frames k (command R f)
      unfolding command
      Frames-command = record { at = λ w. fate-Kept w.faults w refl }

    pub Frames-set :
        (j : Key) (v : Value) (ttl : ℕ) → key_eq j k ≡ false → Frames k (redis_set R j v ttl)
    Frames-set j v ttl h = Frames-command _ (λ t u db. rw (R.get-set t u j k v ttl db, h))

    delete_if_held-spares :
        (j : Key) (x : ℕ)
        → key_eq j k ≡ false
        → (t u : ℕ) (db : R.Db) → R.get u k (delete_if_held R j x t db).0 ≡ R.get u k db
    unfolding delete_if_held
    delete_if_held-spares j x h t u db = elim (Bool-cases (holds_token R x (R.get t j db))) [
      | inl held ↦ rw (held, R.get-del t u j k db, h)
      | inr other ↦ rw other
    ]

    pub Frames-release_lock : (j : Key) (x : ℕ) → key_eq j k ≡ false → Frames k (release_lock R j x)
    unfolding release_lock
    Frames-release_lock j x h =
        Frames-attempt _ _ (Frames-command _ (delete_if_held-spares j x h)) (Frames-pure tt)

    pub Frames-get_session : (sid : String) → Frames k (get_session R sid)
    unfolding get_session
    Frames-get_session sid =
        Frames-attempt _ _
          (Frames-bind _ _ (Frames-command _ (λ t u db. refl)) (λ raw. Frames-pure _))
          (Frames-pure none)

    pub Frames-all_nil : Frames k (all R [])
    unfolding all
    Frames-all_nil = record { at = λ w. Kept-refl k w }

    pub Frames-all :
        (m : M (World R) (Unit {0})) (ms : List (M (World R) (Unit {0})))
        → Frames k m
        → Frames k (all R ms)
        → Frames k (all R (m ∷ ms))
    unfolding all
    Frames-all m ms h g = record { at = λ w. Kept-trans (h.at w) (g.at (m w).1) }

    pub Frames-persist_session :
        (s : Session) (ttl : ℕ)
        → key_eq (session s.session_id) k ≡ false
        → Frames k (persist_session R s ttl)
    unfolding persist_session
    Frames-persist_session s ttl h = Frames-then _ _ (Frames-set _ _ _ h) (Frames-pure ttl)
