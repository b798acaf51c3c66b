-- ===== src/Agent/Engine/Table.antt =====
-- The session table of an `Engine`: what finding, updating, deleting, pruning and evicting keep.
use mathlib.Core.Path.{subst}
use longhub_manager.Common.{
  ℕ, zero, suc, ◌+◌, ◌≤◌, ◌<◌, ◌≡◌, refl, Bool, true, false, ◌||◌, some, [], ◌∷◌, Text, text_eq,
  text_eq_refl, is_empty, ltb, leb, length, All, arith, Bool-cases, inl, inr, ◌⊎◌,
}
use longhub_manager.Agent.Session.{Session, max_sessions}
use longhub_manager.Agent.Engine.{
  Sessions, find_session, delete_session, update_session, prune_expired, oldest_session, evict,
}

-- Every session of the table satisfies the predicate.
abbrev pub Each : (Session → Type 0) → Sessions → Type 0
Each P = All (λ (entry : Text × Session). P entry.1)

module _ (P : Session → Type 0) where
  pub find-Each :
      (id : Text) (table : Sessions) (s : Session)
      → Each P table
      → find_session id table ≡ some s
      → P s
  unfolding find_session
  find-Each id [] s h e = ground arith
  find-Each id ((key, t) ∷ table) s h e = elim (Bool-cases (text_eq id key)) [
    | inl q ↦ subst P {x = t} {y = s} (ground (arith, e, q)) h.0
    | inr q ↦ find-Each id table s h.1 (ground (arith, q))
  ]

  pub update-Each :
      (id : Text) (s : Session) (table : Sessions)
      → P s
      → Each P table
      → Each P (update_session id s table)
  unfolding update_session
  update-Each id s [] p h = tt
  update-Each id s ((key, t) ∷ table) p h = elim (Bool-cases (text_eq id key)) [
    | inl q ↦ rw q (p, update-Each id s table p h.1)
    | inr q ↦ rw q (h.0, update-Each id s table p h.1)
  ]

  pub delete-Each : (id : Text) (table : Sessions) → Each P table → Each P (delete_session id table)
  unfolding delete_session
  delete-Each id [] h = tt
  delete-Each id ((key, t) ∷ table) h = elim (Bool-cases (text_eq id key)) [
    | inl q ↦ rw q (delete-Each id table h.1)
    | inr q ↦ rw q (h.0, delete-Each id table h.1)
  ]

  pub prune-Each :
      (cutoff : ℕ) (table : Sessions) → Each P table → Each P (prune_expired cutoff table)
  unfolding prune_expired
  prune-Each cutoff [] h = tt
  prune-Each cutoff ((key, t) ∷ table) h = elim (Bool-cases (ltb t.updated cutoff)) [
    | inl q ↦ rw q (prune-Each cutoff table h.1)
    | inr q ↦ rw q (h.0, prune-Each cutoff table h.1)
  ]

  pub evict-Each : (n : ℕ) (table : Sessions) → Each P table → Each P (evict n table)
  unfolding evict
  evict-Each zero table h = h
  evict-Each (suc n) table h = elim (Bool-cases (leb max_sessions (length table))) [
    | inl q ↦ rw (q, evict) (evict-Each n _ (delete-Each _ table h))
    | inr q ↦ rw (q, evict) h
  ]

-- Deleting never adds, and takes an entry whose id is in the table.
pub length-delete : (id : Text) (table : Sessions) → length (delete_session id table) ≤ length table
unfolding delete_session
length-delete id [] = omega arith
length-delete id ((key, t) ∷ table) = ground (arith, length-delete id table)

-- The id is that of an entry.
has_entry : Text → Sessions → Bool
has_entry id [] = false
has_entry id ((key, s) ∷ table) = text_eq id key || has_entry id table

length-delete_entry :
    (id : Text) (table : Sessions)
    → has_entry id table ≡ true
    → length (delete_session id table) < length table
unfolding delete_session has_entry
length-delete_entry id [] h = ground arith
length-delete_entry id ((key, t) ∷ table) h =
    ground (arith, length-delete id table, length-delete_entry id table)

oldest-newer :
    (id key : Text) (updated : ℕ) (s : Session) (table : Sessions)
    → (is_empty id || ltb s.updated updated) ≡ true
    → oldest_session id updated ((key, s) ∷ table) ≡ oldest_session key s.updated table
unfolding oldest_session
oldest-newer id key updated s table q = rw q

oldest-older :
    (id key : Text) (updated : ℕ) (s : Session) (table : Sessions)
    → (is_empty id || ltb s.updated updated) ≡ false
    → oldest_session id updated ((key, s) ∷ table) ≡ oldest_session id updated table
unfolding oldest_session
oldest-older id key updated s table q = rw q

entry_here :
    (id key : Text) (s : Session) (table : Sessions)
    → id ≡ key
    → has_entry id ((key, s) ∷ table) ≡ true
unfolding has_entry
entry_here id key s table e = rw (e, text_eq_refl key)

entry_later :
    (id key : Text) (s : Session) (table : Sessions)
    → has_entry id table ≡ true
    → has_entry id ((key, s) ∷ table) ≡ true
unfolding has_entry
entry_later id key s table h = ground (arith, h)

-- Where the search starts from an entry or from nothing, it ends there or at a later entry.
oldest-cases :
    (id : Text) (updated : ℕ) (table : Sessions)
    → (oldest_session id updated table ≡ id)
      ⊎ (has_entry (oldest_session id updated table) table ≡ true)
oldest-cases id updated [] = inl (unfold oldest_session in refl)
oldest-cases id updated ((key, s) ∷ table) =
    elim (Bool-cases (is_empty id || ltb s.updated updated)) [
      | inl q ↦
          rw (oldest-newer id key updated s table q) (elim (oldest-cases key s.updated table) [
            | inl same ↦ inr (entry_here _ key s table same)
            | inr older ↦ inr (entry_later _ key s table older)
          ])
      | inr q ↦ rw (oldest-older id key updated s table q) (elim (oldest-cases id updated table) [
        | inl same ↦ inl same
        | inr older ↦ inr (entry_later _ key s table older)
      ])
    ]

-- The least recently updated session of a table is one of its entries.
has_entry-oldest :
    (key : Text) (s : Session) (table : Sessions)
    → has_entry (oldest_session [] 0 ((key, s) ∷ table)) ((key, s) ∷ table) ≡ true
has_entry-oldest key s table =
    rw (oldest-newer [] key 0 s table refl) (elim (oldest-cases key s.updated table) [
      | inl same ↦ entry_here _ key s table same
      | inr older ↦ entry_later _ key s table older
    ])

-- With a round for each entry the loop leaves room for one session more.
pub length-evict :
    (n : ℕ) (table : Sessions)
    → length table < n + max_sessions
    → length (evict n table) < max_sessions
unfolding evict
length-evict zero table h = omega arith
length-evict (suc n) [] h = omega arith
length-evict (suc n) ((key, s) ∷ table) h =
    elim (Bool-cases (leb max_sessions (length ((key, s) ∷ table)))) [
      | inl q ↦
          rw (q, evict)
            (length-evict n _ (
              omega
                (arith, length-delete_entry _ ((key, s) ∷ table) (has_entry-oldest key s table))))
      | inr q ↦ rw (q, evict) (ground arith)
    ]

pub length-update :
    (id : Text) (s : Session) (table : Sessions) → length (update_session id s table) ≡ length table
unfolding update_session
length-update id s [] = refl
length-update id s ((key, t) ∷ table) = omega (arith, length-update id s table)

pub length-prune :
    (cutoff : ℕ) (table : Sessions) → length (prune_expired cutoff table) ≤ length table
unfolding prune_expired
length-prune cutoff [] = omega arith
length-prune cutoff ((key, t) ∷ table) = ground (arith, length-prune cutoff table)
