-- ===== src/Client/Listeners/Closed.antt =====
-- The listeners of a run, opened and closed: internal/client/client.go.
use mqtt_forward.Prelude.{
  Text, text_eq, text_eq_self, Option-cases, ◌≡◌, refl, ◌∙◌, ap, sym, Option, none, some, List, [],
  ◌∷◌, ◌++◌, map, append_assoc, append-nil, if◌then◌else◌, arith, ◌≢◌, ◌⊎◌, inl, inr,
}
use mqtt_forward.Client.{Client, close_all_sessions}
use mqtt_forward.Client.Listeners.{
  TcpForward, NetAction, opens_at, closes_at, returned, listen_failed, open_each, close_each,
  accept_loops, Run, run_tcp_forwards,
}

-- A list without the first occurrence of a text.
abbrev pub without : Text → List Text → List Text
without a [] = []
without a (b ∷ bs) = if text_eq a b then bs else b ∷ without a bs

-- The listeners that are open after the actions.
abbrev pub left_open : List NetAction → List Text → List Text
left_open [] ls = ls
left_open (opens_at a ∷ rest) ls = left_open rest (ls ++ a ∷ [])
left_open (closes_at a ∷ rest) ls = left_open rest (without a ls)

left_open-opens :
    (ls : List Text) (rest : List NetAction) (held : List Text)
    → left_open (map opens_at ls ++ rest) held ≡ left_open rest (held ++ ls)
left_open-opens [] rest held = ap (left_open rest) (sym (append-nil held))
left_open-opens (l ∷ ls) rest held =
    left_open-opens ls rest (held ++ l ∷ []) ∙ ap (left_open rest) (append_assoc held (l ∷ []) ls)

left_open-closes : (ls : List Text) → left_open (close_each ls) ls ≡ []
left_open-closes [] = refl
left_open-closes (l ∷ ls) = ap (left_open (close_each ls)) first ∙ left_open-closes ls
  where
    first : without l (l ∷ ls) ≡ ls
    first = rw (text_eq_self l) refl

all_closed : (ls : List Text) → left_open (map opens_at ls ++ close_each ls) [] ≡ []
all_closed ls = left_open-opens ls (close_each ls) [] ∙ left_open-closes ls

-- Each address can be listened on, when those before it are.
abbrev pub CanListen : (List Text → Text → Option Text) → List Text → List TcpForward → Type 0
CanListen net_listen opened [] = Unit
CanListen net_listen opened (f ∷ fs) =
    (net_listen opened f.listen ≡ none) × CanListen net_listen (opened ++ f.listen ∷ []) fs

abbrev pub addresses : List TcpForward → List Text
addresses [] = []
addresses (f ∷ fs) = f.listen ∷ addresses fs

abbrev pub pairs : List TcpForward → List (Text × Text)
pairs [] = []
pairs (f ∷ fs) = (f.listen, f.target) ∷ pairs fs

-- Either every address is listened on, or the one that is named cannot be.
open_each_cases :
    (net_listen : List Text → Text → Option Text) (opened : List Text) (fs : List TcpForward)
    → (CanListen net_listen opened fs
        × ((open_each net_listen opened fs).0 ≡ opened ++ addresses fs)
        × ((open_each net_listen opened fs).1 ≡ none))
      ⊎ ((¬ CanListen net_listen opened fs)
          × ((a e : Text) × ((open_each net_listen opened fs).1 ≡ some (listen_failed a e))))
unfolding open_each
open_each_cases net_listen opened [] = inl (tt, sym (append-nil opened), refl)
open_each_cases net_listen opened (f ∷ fs) = elim (Option-cases (net_listen opened f.listen)) [
  | inr (e, refused) ↦ inr (λ (can, _). ground arith, (f.listen, e, rw (refused, open_each) refl))
  | inl free ↦ elim (open_each_cases net_listen (opened ++ f.listen ∷ []) fs) [
    | inl (can, ls, ends) ↦ inl (
      (free, can),
      rw (free, open_each) (ls ∙ append_assoc opened (f.listen ∷ []) (addresses fs)),
      rw (free, open_each) ends,
    )
    | inr (cannot, (a, e, h)) ↦ inr (λ (_, can). cannot can, (a, e, rw (free, open_each) h))
  ]
]

accept_loops-addresses : (fs : List TcpForward) → accept_loops (addresses fs) fs ≡ pairs fs
unfolding accept_loops
accept_loops-addresses [] = refl
accept_loops-addresses (f ∷ fs) = ap (λ l. (f.listen, f.target) ∷ l) (accept_loops-addresses fs)

-- A run that is served, or one that fails.
abbrev pub IsRun :
    (List Text → Text → Option Text)
    → Option Text
    → List TcpForward
    → Client
    → Client
    → Run
    → Type 0
IsRun net_listen subscribed fs c last r =
    (left_open r.actions [] ≡ [])
    × (((r.end ≡ returned)
          × (subscribed ≡ none)
          × CanListen net_listen [] fs
          × (r.loops ≡ pairs fs)
          × (r.client ≡ (close_all_sessions last).0)
          × (r.messages ≡ (close_all_sessions last).1))
        ⊎ ((r.end ≢ returned)
            × ((fs ≡ []) ⊎ ((subscribed ≢ none) ⊎ (¬ CanListen net_listen [] fs)))
            × (r.loops ≡ [])
            × (r.client ≡ c)
            × (r.messages ≡ [])))

-- Whatever happens in a run of forwards, no listener is left open at its end. It returns without an error
-- if there are forwards, the subscriptions are made and each address can be listened on, and then each
-- forward has its accept loop, of its address and its target, and the sessions are closed in the end.
-- Otherwise it fails, starts no accept loop, and leaves the client as it was.
pub run_tcp_forwards_lem :
    (net_listen : List Text → Text → Option Text) (subscribed : Option Text) (fs : List TcpForward)
    (c last : Client)
    → IsRun net_listen subscribed fs c last (run_tcp_forwards net_listen subscribed fs c last)
unfolding run_tcp_forwards
run_tcp_forwards_lem net_listen subscribed [] c last =
    (refl, inr (λ e. ground arith, inl refl, refl, refl, refl))
run_tcp_forwards_lem net_listen (some e) (f ∷ fs) c last =
    (refl, inr (λ h. ground arith, inr (inl (λ h. ground arith)), refl, refl, refl))
run_tcp_forwards_lem net_listen none (f ∷ fs) c last =
    elim (open_each_cases net_listen [] (f ∷ fs)) [
      | inl (can, ls, ends) ↦
          rw (ends, run_tcp_forwards)
            (rw (ls, run_tcp_forwards)
              (
                all_closed (addresses (f ∷ fs)),
                inl (refl, refl, can, accept_loops-addresses (f ∷ fs), refl, refl),
              ))
      | inr (cannot, (a, e, h)) ↦
          rw (h, run_tcp_forwards)
            (
              all_closed (open_each net_listen [] (f ∷ fs)).0,
              inr (λ h. ground arith, inr (inr cannot), refl, refl, refl),
            )
    ]
