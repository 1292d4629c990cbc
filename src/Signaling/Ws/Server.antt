-- ===== src/Signaling/Ws/Server.antt =====
-- The server as a whole: any number of sockets whose handlers (crates/signaling/src/ws.rs) take turns on
-- one session store, while sessions expire. A handler's turn is one message.
use couchlink.Base.{◌∙◌, false, ℕ, Text, Option, none, some, List, [], ◌∷◌, ◌≡◌, refl, sym, subst}
use couchlink.Proto.Signal.{player, SignalMessage}
use couchlink.Signaling.Channels.{Channels}
use couchlink.Signaling.Session.Store.{SessionStore}
use couchlink.Signaling.Session.Invariant.{IsStore}
use couchlink.Signaling.Session.Reachable.{with_limits, sweeps}
use couchlink.Signaling.Session.Peers.{inc_conn, sweep_expired}
use couchlink.Signaling.Ws.{Handled, Message, Conn, handle_frame, close_socket, open_socket}
use couchlink.Signaling.Ws.Steps.{Steps, stays, after, Steps-IsStore}
use couchlink.Signaling.Ws.Outcomes.{
  IsSeated, run-IsSeated, handle_frame-Outcome, close_socket-Steps,
}

module _ (ch : Channels) (from_std : ℕ → Option ℕ) (from_json : Text → Option SignalMessage) where
  open ch use {Sender, same_channel}

  -- The store and the connections whose handlers run.
  pub record Server : Type 0 where
    pub store : SessionStore ch
    pub conns : List (Conn ch)

  -- The channel of `tx` is none of the connections'.
  abbrev pub IsNew : Sender → List (Conn ch) → Type 0
  IsNew tx [] = Unit {0}
  IsNew tx (c ∷ cs) = (same_channel tx c.tx ≡ false) × IsNew tx cs

  abbrev served : SessionStore ch → Conn ch → ℕ → Message → Handled ch
  served st c now m = (handle_frame ch from_json st c now m).1

  -- One of the handlers takes a turn.
  pub data Turn : Server → Server → Type 0 where
    handles :
        (st : SessionStore ch) (c : Conn ch) (cs : List (Conn ch)) (now : ℕ) (m : Message)
        → Turn
            (record { store = st; conns = c ∷ cs })
            (record { store = (served st c now m).0; conns = (served st c now m).1 ∷ cs })
    ends :
        (st : SessionStore ch) (c : Conn ch) (cs : List (Conn ch)) (now : ℕ)
        → Turn
            (record { store = st; conns = c ∷ cs })
            (record { store = (close_socket ch st c now).0; conns = cs })
    another :
        {st st' : SessionStore ch} {cs cs' : List (Conn ch)} (c : Conn ch)
        → Turn (record { store = st; conns = cs }) (record { store = st'; conns = cs' })
        → Turn (record { store = st; conns = c ∷ cs }) (record { store = st'; conns = c ∷ cs' })

  -- The servers that can come about from an empty store.
  pub data Runs (limit ttl : ℕ) : Server → Type 0 where
    boots : Runs limit ttl (record { store = with_limits ch limit ttl; conns = [] })
    accepts :
        {st : SessionStore ch} {cs : List (Conn ch)} (tx : Sender)
        → Runs limit ttl (record { store = st; conns = cs })
        → IsNew tx cs
        → Runs limit ttl
            (record { store = (open_socket ch st tx).0; conns = (open_socket ch st tx).1 ∷ cs })
    turns : {s s' : Server} → Runs limit ttl s → Turn s s' → Runs limit ttl s'
    expires :
        {st : SessionStore ch} {cs : List (Conn ch)} (now : ℕ)
        → Runs limit ttl (record { store = st; conns = cs })
        → Runs limit ttl (record { store = sweep_expired ch from_std st now; conns = cs })

  -- Each connection has a channel of its own, and the seat that its variables say.
  abbrev pub AllSeated : SessionStore ch → List (Conn ch) → Type 0
  AllSeated st [] = Unit {0}
  AllSeated st (c ∷ cs) = IsNew c.tx cs × IsSeated ch from_std st c × AllSeated st cs

  abbrev pub IsServer : Server → Type 0
  IsServer s = IsStore ch s.store × AllSeated s.store s.conns

  -- The closing socket, if there is one, is none of the connections'.
  abbrev NoneCloses : Option Sender → List (Conn ch) → Type 0
  NoneCloses none cs = Unit {0}
  NoneCloses (some closing) cs = IsNew closing cs

  kept-AllSeated :
      (closing : Option Sender) (st st' : SessionStore ch) (cs : List (Conn ch))
      → Steps ch from_std closing st st'
      → IsStore ch st
      → NoneCloses closing cs
      → AllSeated st cs
      → AllSeated st' cs
  kept-AllSeated closing st st' [] r h n s = tt
  kept-AllSeated none st st' (c ∷ cs) r h n s =
      (s.0, run-IsSeated ch from_std c r h tt s.1, kept-AllSeated none st st' cs r h tt s.2)
  kept-AllSeated (some closing) st st' (c ∷ cs) r h n s = (
    s.0,
    run-IsSeated ch from_std c r h n.0 s.1,
    kept-AllSeated (some closing) st st' cs r h n.1 s.2,
  )

  -- What a turn of one of the handlers does to a server, seen from the others.
  abbrev Turned : Server → Server → Type 0
  Turned s s' =
      IsStore ch s'.store
      × AllSeated s'.store s'.conns
      × ((c : Conn ch)
          → IsNew c.tx s.conns
          → IsSeated ch from_std s.store c
          → IsNew c.tx s'.conns × IsSeated ch from_std s'.store c)

  Turn-Turned : (s s' : Server) → Turn s s' → IsServer s → Turned s s'
  Turn-Turned _ _ (handles st c cs now m) (h, (new, seated, rest)) =
      let p = handle_frame-Outcome ch from_std from_json st c now m in
      let c' : Conn ch = (served st c now m).1 in
      let same : c'.tx ≡ c.tx = p.same_tx in
      (
        Steps-IsStore ch from_std p.run h,
        (
          subst (λ tx. IsNew tx cs) (sym same) new,
          p.seated h seated,
          kept-AllSeated none st _ cs p.run h tt rest,
        ),
        λ d apart sits. (
          (subst (λ tx. same_channel d.tx tx ≡ false) (sym same) apart.0, apart.1),
          run-IsSeated ch from_std d p.run h tt sits,
        ),
      )
  Turn-Turned _ _ (ends st c cs now) (h, (new, seated, rest)) =
      let r = close_socket-Steps ch from_std st c now in
      (
        Steps-IsStore ch from_std r h,
        kept-AllSeated (some c.tx) st _ cs r h new rest,
        λ d apart sits.
            (apart.1, run-IsSeated ch from_std d r h (ch.same_sym c.tx d.tx ∙ apart.0) sits),
      )
  Turn-Turned _ _ (another {st} {st'} {cs} {cs'} c t) (h, (new, seated, rest)) =
      let s : Server = record { store = st; conns = cs } in
      let s' : Server = record { store = st'; conns = cs' } in
      let (v, all, others) = Turn-Turned s s' t (h, rest) in
      let (new', seated') = others c new seated in
      (
        v,
        (new', seated', all),
        λ d apart sits. let (apart', sits') = others d apart.1 sits in ((apart.0, apart'), sits'),
      )

  -- In every server that can come about, with any number of sockets that open, send any messages and close in
  -- any order, and with sessions that expire between: the session store is well formed (one entry for a session,
  -- no channel in two slots of it, a gauge that counts the sessions), and every open connection that is a
  -- player's holds, in the session that it registered in last, the slot that its messages are stamped with.
  pub Runs-IsServer : (limit ttl : ℕ) (s : Server) → Runs limit ttl s → IsServer s
  unfolding with_limits open_socket inc_conn
  Runs-IsServer limit ttl _ boots = ((tt, tt, refl), tt)
  Runs-IsServer limit ttl _ (accepts {st} {cs} tx r new) =
      let (h, all) = Runs-IsServer limit ttl (record { store = st; conns = cs }) r in
      (h, (new, λ role. absurd (no_role role), all))
    where
      no_role : none ≡ some player → ⊥
      no_role e = cc
  Runs-IsServer limit ttl _ (turns {s} {s'} r t) =
      let (h, all, others) = Turn-Turned s s' t (Runs-IsServer limit ttl s r) in (h, all)
  Runs-IsServer limit ttl _ (expires {st} {cs} now r) =
      let (h, all) = Runs-IsServer limit ttl (record { store = st; conns = cs }) r in
      let run : Steps ch from_std none st (sweep_expired ch from_std st now) =
        after stays (sweeps st now) tt in
      (Steps-IsStore ch from_std run h, kept-AllSeated none st _ cs run h tt all)
