-- ===== src/Signaling/Session/Sockets.antt =====
-- What a closing socket does to a session: the socket that holds the host's place or a player's slot
-- frees it, and a stale one frees nothing.
use couchlink.Base.{
  ◌∙◌, ℕ, Option, none, some, Bool, true, false, ◌≡◌, [], ◌++◌, ◌⊎◌, inl, inr, refl, Option-cases,
  Bool-cases, bytes_eq_refl,
}
use couchlink.Proto.Signal
use couchlink.Proto.Signal.{host, player}
use couchlink.Signaling.Channels.{Channels}
use couchlink.Signaling.Players
use couchlink.Signaling.Players.{PlayerTable}
use couchlink.Signaling.Players.Laws.{IsTable, Vacated, slot_of-some, slot_of-none, vacate_lem}
use couchlink.Signaling.Session.Map.{Text, find, put, find-put}
use couchlink.Signaling.Session.Store.{Outgoing, json, Session, SessionStore, Sent, write}
use couchlink.Signaling.Session.Peers.{
  unregister, unregister_host, unregister_player, leave_slot, is_current, to_all, to_peer, peer_tx,
  broadcast_to_players,
}

module _ (ch : Channels) where
  open ch use {Sender, same_channel}

  -- What is left of the session's host when its socket `tx` has closed.
  abbrev pub HostClosed :
      SessionStore ch
      → Text
      → Session ch
      → Option Sender
      → ℕ
      → SessionStore ch × Sent ch
      → Bool
      → Type 0
  HostClosed st id e tx now (st', sent) false = (st'.sessions ≡ st.sessions) × (sent ≡ [])
  HostClosed st id e tx now (st', sent) true =
      (st'.sessions ≡ put id (record e { host_tx = none; last_activity = now }) st.sessions)
      × (sent ≡ to_all ch (json (Signal.peer_left 0)) (Players.iter ch e.players))

  written-found :
      (st : SessionStore ch) (id : Text) (e : Session ch)
      → find id (write ch st id e).sessions ≡ some e
  written-found st id e = find-put id id e st.sessions ∙ rw (bytes_eq_refl id) refl

  players-told :
      (st : SessionStore ch) (id : Text) (e : Session ch) (msg : Outgoing)
      → broadcast_to_players ch (write ch st id e) id msg
        ≡ to_all ch msg (Players.iter ch e.players)
  unfolding broadcast_to_players
  players-told st id e msg = rw (written-found st id e, broadcast_to_players) refl

  host-told :
      (st : SessionStore ch) (id : Text) (e : Session ch)
      → peer_tx ch (write ch st id e) id host ≡ e.host_tx
  unfolding peer_tx
  host-told st id e = rw (written-found st id e, peer_tx) refl

  -- When the socket of a host of an existing session closes: if it holds the host's place, the place is
  -- freed and every player is told; if not, no session changes and nothing is sent.
  pub unregister-host :
      (st : SessionStore ch) (id : Text) (e : Session ch) (tx : Option Sender) (now : ℕ)
      → find id st.sessions ≡ some e
      → HostClosed st id e tx now (unregister ch st id host tx now) (is_current ch e.host_tx tx)
  unfolding unregister unregister_host
  unregister-host st id e tx now found =
      rw (found, unregister)
        (elim (Bool-cases (is_current ch e.host_tx tx)) [
          | inl y ↦ rw y (refl, shown (record e { host_tx = none; last_activity = now }))
          | inr n ↦ rw n (refl, refl)
        ])
    where
      shown :
          (e' : Session ch)
          → broadcast_to_players ch (write ch st id e') id (json (Signal.peer_left 0))
            ≡ to_all ch (json (Signal.peer_left 0)) (Players.iter ch e'.players)
      shown e' = players-told st id e' (json (Signal.peer_left 0))

  -- What is left of the session's players when the socket `closing` of one of them has closed.
  abbrev pub PlayerStale :
      SessionStore ch → Session ch → Sender → SessionStore ch × Sent ch → Type 0
  PlayerStale st e closing (st', sent) =
      ((j : ℕ) (s : Sender) → Players.get ch e.players j ≡ some s → same_channel s closing ≡ false)
      × (st'.sessions ≡ st.sessions)
      × (sent ≡ [])

  abbrev pub PlayerClosed :
      SessionStore ch → Text → Session ch → Sender → ℕ → SessionStore ch × Sent ch → Type 0
  PlayerClosed st id e closing now (st', sent) =
      (slot : ℕ) × (t : PlayerTable ch) × Vacated ch e.players slot closing (t, true)
      × (st'.sessions ≡ put id (record e { players = t; last_activity = now }) st.sessions)
      × (sent
          ≡ to_peer ch (json (Signal.peer_left slot)) e.host_tx
            ++ to_all ch (json (Signal.peer_left slot)) (Players.iter ch t))

  leave_slot-PlayerClosed :
      (st : SessionStore ch) (id : Text) (e : Session ch) (closing : Sender) (now slot : ℕ)
      (r : PlayerTable ch × Bool)
      → Players.slot_of ch e.players closing ≡ some slot
      → Vacated ch e.players slot closing r
      → PlayerClosed st id e closing now (leave_slot ch st id e slot now r)
  unfolding leave_slot
  leave_slot-PlayerClosed st id e closing now slot (t, false) h (same, stranger) =
      let (s, here, own, low) = slot_of-some ch e.players closing slot h in
      absurd (cc (stranger s here, own))
  leave_slot-PlayerClosed st id e closing now slot (t, true) h freed =
      let e' : Session ch = record e { players = t; last_activity = now } in
      (
        slot,
        t,
        freed,
        refl,
        cc (host-told st id e', players-told st id e' (json (Signal.peer_left slot))),
      )

  -- When the socket of a player of an existing session closes, and the session's table is well formed:
  -- either the socket holds no slot, no session changes and nothing is sent; or exactly the slot that it
  -- holds is freed, the other slots and the epoch stay, and the host and the remaining players are told
  -- which slot it was.
  pub unregister-player :
      (st : SessionStore ch) (id : Text) (e : Session ch) (closing : Sender) (now : ℕ)
      → find id st.sessions ≡ some e
      → IsTable ch e.players
      → PlayerStale st e closing (unregister ch st id player (some closing) now)
        ⊎ PlayerClosed st id e closing now (unregister ch st id player (some closing) now)
  unfolding unregister unregister_player
  unregister-player st id e closing now found v =
      elim (Option-cases (Players.slot_of ch e.players closing)) [
        | inl n ↦ inl (
          λ j s h. slot_of-none ch e.players closing j s n h,
          rw (found, unregister) (rw (n, unregister_player) refl),
          rw (found, unregister) (rw (n, unregister_player) refl),
        )
        | inr (slot, h) ↦ inr (
            rw (found, unregister)
              (rw (h, unregister_player)
                (leave_slot-PlayerClosed st id e closing now slot
                  (Players.vacate ch e.players slot closing) h
                  (vacate_lem ch e.players slot closing v))))
      ]
