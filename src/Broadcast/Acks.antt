-- ===== src/Broadcast/Acks.antt =====
-- How a handshake of waitbus/broadcast.py gets its acknowledgement out while passes go on.
use waitbus.Prelude.{
  ℕ, String, ◌≡◌, refl, sym, ap, ◌∙◌, subst, inl, inr, false, Option, none, some, List, [], ◌∷◌,
  ◌++◌, append-nil, append_assoc, arith, ◌==◌, ==_iff, Bool-cases, length, take, drop,
  take-append-drop, take_all,
}
use waitbus.Frame.{Bytes}
use waitbus.Subscriber.{send, queued_bytes, Socket, Sent, took, blocked, failed, Queued, Subscriber}
use waitbus.Subscriber.Sound.{FaultsStay, SendLaw, send_law, IsLive}
use waitbus.Broadcast.{Row}
use waitbus.Broadcast.Handshake.{ack_sent, ack_round, AckRound, acked, unsent, lost}
use waitbus.Broadcast.Feed.{feed, wire_of, select, due, Ascending}
use waitbus.Broadcast.Gate.{wires, feed-gate, IsGated}
use waitbus.Broadcast.Table.{Ascending-rest, select-append}

-- The handshake sends, after each of some batches of rows but the last; the `send` before the last batch
-- takes the last byte. `none` when the subscriber is dropped, or the handshake is not over.
unfoldable pub ack_goes_on :
    List (List Row) → AckRound → (Bytes → Subscriber → Option Subscriber) → Option Subscriber
unfolding feed
ack_goes_on (rows ∷ []) (acked s) go_on = feed rows s
ack_goes_on _ (acked s) go_on = none
ack_goes_on more (unsent rest s) go_on = go_on rest s
ack_goes_on more (lost s) go_on = none

unfoldable pub sends_ack : List (List Row) → Bytes → Subscriber → Option Subscriber
unfolding ack_goes_on ack_round feed
sends_ack [] rest s = none
sends_ack (rows ∷ more) rest s = elim (feed rows s) [
  | none ↦ none
  | some t ↦ ack_goes_on more (ack_round rest t) (λ rest' t'. sends_ack more rest' t')
]

abbrev pub all_rows : List (List Row) → List Row
all_rows [] = []
all_rows (rows ∷ more) = rows ++ all_rows more

wires-append : (xs ys : List Row) → wires (xs ++ ys) ≡ wires xs ++ wires ys
wires-append [] ys = refl
wires-append (x ∷ xs) ys = ap (λ l. wire_of x ∷ l) (wires-append xs ys)

module _ (filters types : List String) (w : ℕ) where
  -- Before the acknowledgement is out, with the bytes `part` of it on the wire
  abbrev pub IsAcking : Bytes → List Bytes → List Row → Subscriber → Type 0
  IsAcking part b rows s = IsGated filters types w ((part, false) ∷ []) b rows s

  more_sent :
      (part more : Bytes) (b : List Bytes) (rows : List Row) (s : Subscriber) (k : Socket)
      → FaultsStay k.answers
      → k.sent ≡ s.sock.sent ++ more
      → IsAcking part b rows s
      → IsAcking (part ++ more) b rows (record s { sock = k })
  more_sent part more b rows s k f e g =
      let sent_eq : s.sock.sent ≡ part =
        sym (append-nil s.sock.sent)
        ∙ ap (λ (q : List Queued). s.sock.sent ++ queued_bytes q) (sym g.idle)
        ∙ g.live.stream
        ∙ append-nil part in
      let live : IsLive ((part ++ more, false) ∷ []) (record s { sock = k }) = record {
        faults = f;
        stream = rw (g.idle, append-nil, append-nil) (e ∙ ap (λ (x : Bytes). x ++ more) sent_eq);
        count = g.live.count;
      } in
      record {
        sound = (record { armed = g.sound.0.armed; bounded = g.sound.0.bounded }, inl live);
        live = live;
        idle = g.idle;
        filters_eq = g.filters_eq;
        types_eq = g.types_eq;
        buffer_eq = g.buffer_eq;
        watch = g.watch;
      }

  -- What one `send` leaves
  abbrev IsAckRound : Bytes → Bytes → List Bytes → List Row → AckRound → Type 0
  IsAckRound ack part b rows (acked s) = IsAcking ack b rows s
  IsAckRound ack part b rows (unsent rest s) =
      (part' : Bytes) × (part' ++ rest ≡ ack) × IsAcking part' b rows s
  IsAckRound ack part b rows (lost s) = Unit

  ack_sent-IsAckRound :
      (ack part rest : Bytes) (b : List Bytes) (rows : List Row) (s : Subscriber)
      (r : Sent × Socket)
      → part ++ rest ≡ ack
      → IsAcking part b rows s
      → SendLaw rest s.sock r
      → IsAckRound ack part b rows (ack_sent rest s r)
  unfolding ack_sent
  ack_sent-IsAckRound ack part rest b rows s (blocked, k) e g (f, same) = (
    part,
    e,
    subst (λ (x : Bytes). IsAcking x b rows (record s { sock = k })) (append-nil part)
        (more_sent part [] b rows s k f (same ∙ sym (append-nil s.sock.sent)) g),
  )
  ack_sent-IsAckRound ack part rest b rows s (failed, k) e g l = tt
  ack_sent-IsAckRound ack part rest b rows s (took n, k) e g (f, h, sent) =
      elim (Bool-cases (n == length rest)) [
        | inl whole ↦ rw whole (
            subst (λ (x : Bytes). IsAcking x b rows (record s { sock = k }))
              (ap (λ (x : Bytes). part ++ x)
                  (take_all n rest
                    (let all = (==_iff n (length rest)).0 whole in omega (arith, all)))
                ∙ e)
              (more_sent part (take n rest) b rows s k f sent g))
        | inr cut ↦ rw cut (
          part ++ take n rest,
          append_assoc part (take n rest) (drop n rest)
              ∙ ap (λ (x : Bytes). part ++ x) (take-append-drop n rest)
              ∙ e,
          more_sent part (take n rest) b rows s k f sent g,
        )
      ]

  pub sends_ack-IsAcking :
      (rounds : List (List Row)) (ack part rest : Bytes) (b : List Bytes) (tail : List Row)
      (s s' : Subscriber)
      → part ++ rest ≡ ack
      → IsAcking part b (all_rows rounds ++ tail) s
      → Ascending (all_rows rounds ++ tail)
      → sends_ack rounds rest s ≡ some s'
      → IsAcking ack (b ++ wires (select (due filters types w) (all_rows rounds))) tail s'
  unfolding sends_ack ack_round ack_goes_on
  sends_ack-IsAcking [] ack part rest b tail s s' e g asc q = cc
  sends_ack-IsAcking (rows ∷ more) ack part rest b tail s s' e g asc q =
      go
        (λ part' rest' t e' g' a q'. sends_ack-IsAcking more ack part' rest' _ tail t s' e' g' a q')
        (feed rows s) refl q
    where
      IsNext : Type 0
      IsNext =
          (part' rest' : Bytes) (t : Subscriber)
          → part' ++ rest' ≡ ack
          → IsAcking part' (b ++ wires (select (due filters types w) rows)) (all_rows more ++ tail)
              t
          → Ascending (all_rows more ++ tail)
          → sends_ack more rest' t ≡ some s'
          → IsAcking ack
              ((b ++ wires (select (due filters types w) rows))
                ++ wires (select (due filters types w) (all_rows more)))
              tail s'

      asc' : Ascending (rows ++ (all_rows more ++ tail))
      asc' = subst (λ l. Ascending l) (append_assoc rows (all_rows more) tail) asc

      buffer : List Bytes
      buffer = b ++ wires (select (due filters types w) rows)

      joined :
          buffer ++ wires (select (due filters types w) (all_rows more))
          ≡ b ++ wires (select (due filters types w) (rows ++ all_rows more))
      joined =
          append_assoc b _ _
          ∙ ap (λ l. b ++ l)
              (sym (wires-append _ _)
                ∙ ap (λ l. wires l)
                    (sym (select-append (due filters types w) rows (all_rows more))))

      last :
          (more' : List (List Row)) (t : Subscriber)
          (go_on : Bytes → Subscriber → Option Subscriber)
          → IsAcking ack buffer (all_rows more' ++ tail) t
          → Ascending (all_rows more' ++ tail)
          → ack_goes_on more' (acked t) go_on ≡ some s'
          → IsAcking ack (buffer ++ wires (select (due filters types w) (all_rows more'))) tail s'
      last [] t go_on g' a q' = cc
      last (rs ∷ []) t go_on g' a q' =
          let flat = append-nil rs in
          let g'' =
            feed-gate filters types w ((ack, false) ∷ []) buffer rs tail t s'
              (subst (λ l. IsAcking ack buffer (l ++ tail) t) flat g')
              (subst (λ l. Ascending (l ++ tail)) flat a) q' in
          subst (λ l. IsAcking ack (buffer ++ wires (select (due filters types w) l)) tail s')
            (sym flat) g''
      last (rs ∷ rs' ∷ rest') t go_on g' a q' = cc

      round :
          IsNext
          → (r : AckRound) → IsAckRound ack part buffer (all_rows more ++ tail) r
          → ack_goes_on more r (λ rest' t'. sends_ack more rest' t') ≡ some s'
          → IsAcking ack (buffer ++ wires (select (due filters types w) (all_rows more))) tail s'
      round ih (acked t) g' q' =
          last more t (λ rest' t'. sends_ack more rest' t') g' (Ascending-rest rows _ asc') q'
      round ih (unsent rest' t) (part', e', g') q' =
          ih part' rest' t e' g' (Ascending-rest rows _ asc') q'
      round ih (lost t) g' q' = cc

      go :
          IsNext
          → (o : Option Subscriber) → feed rows s ≡ o
          → elim o as (λ _. Option Subscriber) [
            | none ↦ none
            | some t ↦ ack_goes_on more (ack_round rest t) (λ rest' t'. sends_ack more rest' t')
          ]
            ≡ some s'
          → IsAcking ack (b ++ wires (select (due filters types w) (rows ++ all_rows more))) tail s'
      go ih none f q' = cc
      go ih (some t) f q' =
          let g' =
            feed-gate filters types w ((part, false) ∷ []) b rows (all_rows more ++ tail) s t
              (subst (λ l. IsAcking part b l s) (append_assoc rows (all_rows more) tail) g) asc'
              f in
          subst (λ l. IsAcking ack l tail s') joined
            (round ih (ack_round rest t)
              (ack_sent-IsAckRound ack part rest buffer (all_rows more ++ tail) t (send rest t.sock)
                e g' (send_law rest t.sock g'.live.faults))
              q')
