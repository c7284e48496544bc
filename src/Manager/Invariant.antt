-- ===== src/Manager/Invariant.antt =====
-- The session manager keeps its two maps in step.
use mqtt_forward.Prelude.{
  Option-cases, is_some, Text, text_eq_iff, Dict, lookup, insert, lookup-insert, lookup-delete,
  Unique, insert-Unique, delete-Unique, ok, err, ℕ, ◌≡◌, refl, subst, ◌⊎◌, inl, inr, none, some,
  arith,
}
use mqtt_forward.Session.{Session}
use mqtt_forward.Manager.{
  Manager, session_not_found, session_exists, new_manager, add, get, remove_session, touch, put,
}

-- Every session stands under its own id, exactly the ids of the sessions have a time, and no id
-- stands twice in a map.
pub record IsWellFormed (m : Manager) : Type 0 where
  pub own_id : (k : Text) (s : Session) → lookup k m.sessions ≡ some s → s.id ≡ k
  pub same_keys : (k : Text) → is_some (lookup k m.sessions) ≡ is_some (lookup k m.last_seen)
  pub unique_sessions : Unique m.sessions
  pub unique_times : Unique m.last_seen

pub new_manager-IsWellFormed : IsWellFormed new_manager
unfolding new_manager lookup
new_manager-IsWellFormed = record {
  own_id = λ k s h. cc;
  same_keys = λ k. refl;
  unique_sessions = tt;
  unique_times = tt;
}

insert-own_id :
    (s : Session) (d : Dict Session)
    → ((k : Text) (t : Session) → lookup k d ≡ some t → t.id ≡ k)
    → (k : Text) (t : Session) → lookup k (insert s.id s d) ≡ some t
    → t.id ≡ k
insert-own_id s d own k t h = ground (arith, lookup-insert s.id k s d, text_eq_iff s.id k, own k t)

abbrev pub added : ℕ → Session → Manager → Manager
added now s m = record {
  sessions = insert s.id s m.sessions;
  last_seen = insert s.id now m.last_seen;
}

pub added-IsWellFormed :
    (now : ℕ) (s : Session) (m : Manager) → IsWellFormed m → IsWellFormed (added now s m)
added-IsWellFormed now s m v = record {
  own_id = insert-own_id s m.sessions v.own_id;
  same_keys = λ k. ground (
    arith,
    lookup-insert s.id k s m.sessions,
    lookup-insert s.id k now m.last_seen,
    v.same_keys k,
  );
  unique_sessions = insert-Unique s.id s m.sessions v.unique_sessions;
  unique_times = insert-Unique s.id now m.last_seen v.unique_times;
}

-- `Add` refuses an id that is taken, and otherwise adds the session with the present time.
pub add_cases :
    (now : ℕ) (s : Session) (m : Manager)
    → ((t : Session) × (lookup s.id m.sessions ≡ some t) × (add now s m ≡ err session_exists))
      ⊎ ((lookup s.id m.sessions ≡ none) × (add now s m ≡ ok (added now s m)))
unfolding add
add_cases now s m = elim (Option-cases (lookup s.id m.sessions)) [
  | inr (t, e) ↦ inl (t, e, rw (e, add))
  | inl e ↦ inr (e, rw (e, add))
]

pub add-IsWellFormed :
    (now : ℕ) (s : Session) (m m' : Manager)
    → IsWellFormed m
    → add now s m ≡ ok m'
    → IsWellFormed m'
add-IsWellFormed now s m m' v h = elim (add_cases now s m) [
  | inl (t, e, f) ↦ cc
  | inr (e, f) ↦ subst IsWellFormed (cc) (added-IsWellFormed now s m v)
]

pub remove_session-IsWellFormed :
    (id : Text) (m : Manager) → IsWellFormed m → IsWellFormed (remove_session id m)
unfolding remove_session
remove_session-IsWellFormed id m v = record {
  own_id = λ k s h. ground (arith, lookup-delete id k m.sessions, v.own_id k s);
  same_keys = λ k.
      ground (arith, lookup-delete id k m.sessions, lookup-delete id k m.last_seen, v.same_keys k);
  unique_sessions = delete-Unique id m.sessions v.unique_sessions;
  unique_times = delete-Unique id m.last_seen v.unique_times;
}

pub touch-IsWellFormed :
    (now : ℕ) (id : Text) (m : Manager) → IsWellFormed m → IsWellFormed (touch now id m)
unfolding touch
touch-IsWellFormed now id m v = elim (Option-cases (lookup id m.sessions)) [
  | inl e ↦ rw (e, touch) v
  | inr (s, e) ↦
      rw (e, touch)
        (record {
          own_id = v.own_id;
          same_keys = λ k.
              ground
                (arith, lookup-insert id k now m.last_seen, text_eq_iff id k, v.same_keys k, e);
          unique_sessions = v.unique_sessions;
          unique_times = insert-Unique id now m.last_seen v.unique_times;
        })
]

pub put-IsWellFormed :
    (s t : Session) (m : Manager)
    → lookup s.id m.sessions ≡ some t
    → IsWellFormed m
    → IsWellFormed (put s m)
unfolding put
put-IsWellFormed s t m e v = record {
  own_id = insert-own_id s m.sessions v.own_id;
  same_keys =
      λ k. ground (arith, lookup-insert s.id k s m.sessions, text_eq_iff s.id k, v.same_keys k, e);
  unique_sessions = insert-Unique s.id s m.sessions v.unique_sessions;
  unique_times = v.unique_times;
}

pub get_cases :
    (id : Text) (m : Manager)
    → (get id m ≡ err session_not_found)
      ⊎ ((s : Session) × (lookup id m.sessions ≡ some s) × (get id m ≡ ok s))
unfolding get
get_cases id m = elim (Option-cases (lookup id m.sessions)) [
  | inl e ↦ inl (rw (e, get))
  | inr (s, e) ↦ inr (s, e, rw (e, get))
]
