-- ===== src/Client/Listeners.antt =====
-- internal/client/client.go: the listeners of `RunTCPForwards` and `RunSOCKS5`, from opening to closing,
-- and the accept loop. A listener is named by the address that it was opened at. `net.Listen` is a
-- function of the addresses that are listened on already: the error, if there is one.
pub mod Closed
use mqtt_forward.Prelude.{Text, Option, none, some, List, [], ◌∷◌, ◌++◌, Bool, true, false, map}
use mqtt_forward.Client.{Client, close_all_sessions}
use mqtt_forward.Transport.{PubMessage}

pub record TcpForward : Type 0 where
  pub listen : Text
  pub target : Text

pub data NetAction : Type 0 where
  opens_at closes_at : Text → NetAction

pub data RunEnd : Type 0 where
  no_forwards returned : RunEnd
  subscribe_failed : Text → RunEnd
  listen_failed : Text → Text → RunEnd

-- The subscriptions of the client: `Subscribe` does not fail; the error, if there is one, is that of
-- `SubscribeAll`.
abbrev pub subscribe : Option Text → Option RunEnd
subscribe none = none
subscribe (some e) = some (subscribe_failed e)

-- The loop that opens the listeners, after those in the list: the listeners, in order, and the error of
-- the first address that fails.
unfoldable pub open_each :
    (List Text → Text → Option Text) → List Text → List TcpForward → List Text × Option RunEnd
open_each net_listen opened [] = (opened, none)
open_each net_listen opened (f ∷ fs) =
    let rest = open_each net_listen (opened ++ f.listen ∷ []) fs in
    elim (net_listen opened f.listen) [
      | some e ↦ (opened, some (listen_failed f.listen e))
      | none ↦ rest
    ]

abbrev pub close_each : List Text → List NetAction
close_each listeners = map closes_at listeners

-- The accept loops: each listener with the target of the forward at its index.
unfoldable pub accept_loops : List Text → List TcpForward → List (Text × Text)
accept_loops [] fs = []
accept_loops (l ∷ ls) [] = []
accept_loops (l ∷ ls) (f ∷ fs) = (l, f.target) ∷ accept_loops ls fs

-- What a run does with listeners, the accept loops that it starts, and the client that it leaves, with
-- what it publishes.
pub record Run : Type 0 where
  pub actions : List NetAction
  pub loops : List (Text × Text)
  pub client : Client
  pub messages : List PubMessage
  pub end : RunEnd

-- `RunTCPForwards`: of the client at the start, and as it is when the context is done and the accept
-- loops have ended.
unfoldable pub run_tcp_forwards :
    (List Text → Text → Option Text) → Option Text → List TcpForward → Client → Client → Run
unfolding open_each accept_loops
run_tcp_forwards net_listen subscribed [] c _ = record {
  actions = [];
  loops = [];
  client = c;
  messages = [];
  end = no_forwards;
}
run_tcp_forwards net_listen subscribed (f ∷ fs) c last = elim (subscribe subscribed) [
  | some e ↦ record { actions = []; loops = []; client = c; messages = []; end = e }
  | none ↦
      let (listeners, failed) = open_each net_listen [] (f ∷ fs) in
      let actions = map opens_at listeners ++ close_each listeners in
      let (closed, out) = close_all_sessions last in
      elim failed [
        | some e ↦ record { actions = actions; loops = []; client = c; messages = []; end = e }
        | none ↦ record {
          actions = actions;
          loops = accept_loops listeners (f ∷ fs);
          client = closed;
          messages = out;
          end = returned;
        }
      ]
]

-- `RunTCP`
unfoldable pub run_tcp :
    (List Text → Text → Option Text) → Option Text → Text → Text → Client → Client → Run
run_tcp net_listen subscribed listen_addr target c last =
    run_tcp_forwards net_listen subscribed (record { listen = listen_addr; target = target } ∷ []) c
      last

-- What `Accept` returns: a connection, or an error, with whether the context is done.
pub data Accept {ℓ} (A : Type ℓ) : Type ℓ where
  connects : A → Accept A
  fails : Bool → Accept A

-- `acceptLoop`, and the loop of `RunSOCKS5`: the connections that are handled.
unfoldable pub accept_loop {ℓ} : {A : Type ℓ} → List (Accept A) → List A
accept_loop [] = []
accept_loop (connects conn ∷ rest) = conn ∷ accept_loop rest
accept_loop (fails true ∷ rest) = []
accept_loop (fails false ∷ rest) = accept_loop rest

-- `RunSOCKS5`: the listener is closed when the context is done, and again on return.
unfoldable pub run_socks5 :
    (List Text → Text → Option Text) → Option Text → Text → Client → Client → Run
run_socks5 net_listen subscribed listen_addr c last = elim (subscribe subscribed) [
  | some e ↦ record { actions = []; loops = []; client = c; messages = []; end = e }
  | none ↦ elim (net_listen [] listen_addr) [
    | some e ↦ record {
      actions = [];
      loops = [];
      client = c;
      messages = [];
      end = listen_failed listen_addr e;
    }
    | none ↦
        let (closed, out) = close_all_sessions last in
        record {
          actions = opens_at listen_addr ∷ closes_at listen_addr ∷ closes_at listen_addr ∷ [];
          loops = [];
          client = closed;
          messages = out;
          end = returned;
        }
  ]
]
