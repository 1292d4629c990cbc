-- ===== src/Signaling/Session/Sweep.antt =====
-- The sweep of expired sessions: which sessions it removes, and that it counts each once.
use couchlink.Base.{
  ap, bytes_eq_sym, ℕ, ◌≡◌, refl, ◌∙◌, subst, arith, List, [], ◌∷◌, Option, none, some, Bool, true,
  false, bytes_eq, inl, inr, Bool-cases, if◌then◌else◌, bytes_eq→eq, bytes_eq_refl, ◌||◌,
}
use couchlink.Signaling.Channels.{Channels}
use couchlink.Signaling.Session.Map.{
  Text, find, remove, Unique, Fresh, Unique-remove, bytes_eq_trans,
}
use couchlink.Signaling.Session.Store.{Session, SessionStore}
use couchlink.Signaling.Session.Peers.{is_stale, stale_ids, expire, expire_all, sweep_expired}

unfoldable pub any_eq : Text → List Text → Bool
any_eq k [] = false
any_eq k (j ∷ js) = bytes_eq j k || any_eq k js

module _ {ℓ} {V : Type ℓ} where
  Fresh-find : (k : Text) (m : List (Text × V)) → Fresh k m → find k m ≡ none
  unfolding find
  Fresh-find k [] f = refl
  Fresh-find k ((j, w) ∷ m) f = rw f.0 (Fresh-find k m f.1)

  -- In a map without double entries a removal shows at its key and nowhere else.
  pub find-remove :
      (k l : Text) (m : List (Text × V))
      → Unique m
      → find l (remove k m) ≡ (if bytes_eq k l then none else find l m)
  unfolding find remove
  find-remove k l [] u = ground arith
  find-remove k l ((j, w) ∷ m) u = elim (Bool-cases (bytes_eq j k)) [
    | inl y ↦
        rw (y, bytes_eq_trans j k l y)
          (elim (Bool-cases (bytes_eq k l)) [
            | inl z ↦ rw z (
                subst (λ i. find i m ≡ none) (bytes_eq→eq j k y ∙ bytes_eq→eq k l z)
                  (Fresh-find j m u.0))
            | inr z ↦ rw z refl
          ])
    | inr n ↦ rw n (ground (arith, find-remove k l m u.1, separate j k l))
  ]
    where
      separate : (j k l : Text) → bytes_eq j l ≡ true → bytes_eq k l ≡ true → bytes_eq j k ≡ true
      separate j k l p q = rw (bytes_eq→eq j l p, bytes_eq→eq k l q) (bytes_eq_refl l)

module _ (ch : Channels) where
  abbrev pub SessionMap : Type 0
  SessionMap = List (Text × Session ch)

  abbrev pub stale_in : ℕ → ℕ → Option (Session ch) → Bool
  stale_in ttl now none = false
  stale_in ttl now (some e) = is_stale ch ttl now e

  stale_ids-Fresh :
      (ttl now : ℕ) (k : Text) (m : SessionMap)
      → Fresh k m
      → any_eq k (stale_ids ch ttl now m) ≡ false
  unfolding stale_ids any_eq
  stale_ids-Fresh ttl now k [] f = refl
  stale_ids-Fresh ttl now k ((j, e) ∷ m) f = elim (Bool-cases (is_stale ch ttl now e)) [
    | inl y ↦ rw y (rw f.0 (stale_ids-Fresh ttl now k m f.1))
    | inr n ↦ rw n (stale_ids-Fresh ttl now k m f.1)
  ]

  any_eq-stale_ids :
      (ttl now : ℕ) (k : Text) (m : SessionMap)
      → Unique m
      → any_eq k (stale_ids ch ttl now m) ≡ stale_in ttl now (find k m)
  unfolding stale_ids any_eq find
  any_eq-stale_ids ttl now k [] u = refl
  any_eq-stale_ids ttl now k ((j, e) ∷ m) u = elim (Bool-cases (bytes_eq j k)) [
    | inl y ↦ rw y (at_key ttl now j k e m y u.0)
    | inr n ↦ rw n (elsewhere ttl now j k e m n (any_eq-stale_ids ttl now k m u.1))
  ]
    where
      at_key :
          (ttl now : ℕ) (j k : Text) (e : Session ch) (m : SessionMap)
          → bytes_eq j k ≡ true
          → Fresh j m
          → any_eq k
              (if is_stale ch ttl now e then j ∷ stale_ids ch ttl now m else stale_ids ch ttl now m)
            ≡ is_stale ch ttl now e
      at_key ttl now j k e m y f = elim (Bool-cases (is_stale ch ttl now e)) [
        | inl stale ↦ rw stale (ground (arith, bytes_eq_sym j k))
        | inr fresh ↦
            rw fresh (stale_ids-Fresh ttl now k m (subst (λ i. Fresh i m) (bytes_eq→eq j k y) f))
      ]

      elsewhere :
          (ttl now : ℕ) (j k : Text) (e : Session ch) (m : SessionMap)
          → bytes_eq j k ≡ false
          → any_eq k (stale_ids ch ttl now m) ≡ stale_in ttl now (find k m)
          → any_eq k
              (if is_stale ch ttl now e then j ∷ stale_ids ch ttl now m else stale_ids ch ttl now m)
            ≡ stale_in ttl now (find k m)
      elsewhere ttl now j k e m n rest = elim (Bool-cases (is_stale ch ttl now e)) [
        | inl stale ↦ rw stale (ground (arith, bytes_eq_sym j k))
        | inr fresh ↦ rw fresh rest
      ]

  -- The sessions of a run of removals.
  pub find-expire_all :
      (ids : List Text) (st : SessionStore ch) (now : ℕ) (k : Text)
      → Unique st.sessions
      → find k (expire_all ch st now ids).sessions
        ≡ (if any_eq k ids then none else find k st.sessions)
  unfolding expire_all expire any_eq
  find-expire_all [] st now k u = refl
  find-expire_all (j ∷ ids) st now k u =
      let rest = find-expire_all ids (expire ch st now j) now k (Unique-remove j st.sessions u) in
      ground (arith, rest, find-remove j k st.sessions u, bytes_eq_sym j k)

  -- The time to live that a sweep uses.
  abbrev pub ttl_of : (ℕ → Option ℕ) → SessionStore ch → ℕ
  ttl_of from_std st = elim (from_std st.session_ttl) [ none ↦ 3_600_000 | some d ↦ d ]

  -- In a store without double entries, a sweep removes the sessions that nobody holds and that were last
  -- active longer ago than the time to live, and keeps every other session as it is.
  pub sweep_expired_lem :
      (from_std : ℕ → Option ℕ) (st : SessionStore ch) (now : ℕ) (id : Text)
      → Unique st.sessions
      → find id (sweep_expired ch from_std st now).sessions ≡ (
          if stale_in (ttl_of from_std st) now (find id st.sessions)
          then none
          else find id st.sessions)
  unfolding sweep_expired
  sweep_expired_lem from_std st now id u =
      find-expire_all (stale_ids ch (ttl_of from_std st) now st.sessions) st now id u
      ∙ ap (λ b. if b then none else find id st.sessions)
          (any_eq-stale_ids (ttl_of from_std st) now id st.sessions u)

  -- Ids that all have an entry, and each stands once.
  abbrev pub Listed : List Text → SessionMap → Type 0
  Listed [] m = Unit {0}
  Listed (id ∷ ids) m =
      ((e : Session ch) × (find id m ≡ some e)) × (any_eq id ids ≡ false) × Listed ids m

  pub Listed-remove :
      (ids : List Text) (id : Text) (m : SessionMap)
      → Unique m
      → any_eq id ids ≡ false
      → Listed ids m
      → Listed ids (remove id m)
  unfolding any_eq
  Listed-remove [] id m u n h = tt
  Listed-remove (j ∷ js) id m u n ((e, here), d, rest) = (
    (e, find-remove id j m u ∙ ground (arith, bytes_eq_sym id j)),
    d,
    Listed-remove js id m u (ground arith) rest,
  )

  Listed-cons :
      (ids : List Text) (j : Text) (w : Session ch) (m : SessionMap)
      → any_eq j ids ≡ false
      → Listed ids m
      → Listed ids ((j, w) ∷ m)
  unfolding any_eq find
  Listed-cons [] j w m n h = tt
  Listed-cons (i ∷ is) j w m n ((e, here), d, rest) =
      ((e, ground (arith, bytes_eq_sym i j)), d, Listed-cons is j w m (ground arith) rest)

  first_found : (j : Text) (e : Session ch) (m : SessionMap) → find j ((j, e) ∷ m) ≡ some e
  unfolding find
  first_found j e m = ground (arith, bytes_eq_refl j)

  pub stale_ids-Listed :
      (ttl now : ℕ) (m : SessionMap) → Unique m → Listed (stale_ids ch ttl now m) m
  unfolding stale_ids
  stale_ids-Listed ttl now [] u = tt
  stale_ids-Listed ttl now ((j, e) ∷ m) u =
      let apart = stale_ids-Fresh ttl now j m u.0 in
      let rest =
        Listed-cons (stale_ids ch ttl now m) j e m apart (stale_ids-Listed ttl now m u.1) in
      elim (Bool-cases (is_stale ch ttl now e)) [
        | inl y ↦ rw y ((e, first_found j e m), apart, rest)
        | inr n ↦ rw n rest
      ]
