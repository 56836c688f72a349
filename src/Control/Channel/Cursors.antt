-- ===== src/Control/Channel/Cursors.antt =====
-- The cursors of channels (`channel.open`, `channel.read`, `channel.ack` of
-- daemon/src/ControlPlane.cpp).
use a2ad.Common.{
  ℕ, ◌≤◌, String, ◌≡◌, refl, ap, false, ◌||◌, Option, none, some, lookup, insert, lookup-insert,
  arith, ◌⊎◌, inl, inr, Bool-cases, ◌==◌, string_eq, str_eq_iff,
}
use a2ad.Common.Int.{ℤ, pos, pos_part, ltb_ℤ}
use a2ad.Control.Records.{Request, Channel, Store, Reply}
use a2ad.Control.Exit.{next, return_if, return_if-next, >>=-eq-next, value, at, required}
use a2ad.Control.Channel.{
  after_number, known_channel, open_new, open_found, channel_open_op, last_sequence, page,
  page_reply, deliver, channel_read_op, channel_ack_op, bad_page,
}

-- Each channel is stored under its id, and its cursor is not ahead of what has been delivered.
abbrev pub IsSound : Store → Type 0
IsSound s =
    (k : String) (c : Channel)
    → lookup k s.channels ≡ some c
    → (c.id ≡ k) × (c.cursor ≤ c.delivered)

IsSound-insert :
    (s s' : Store) (k : String) (c : Channel)
    → s'.channels ≡ insert k c s.channels
    → c.id ≡ k
    → c.cursor ≤ c.delivered
    → IsSound s
    → IsSound s'
IsSound-insert s s' k c e i l h j d found = elim (Bool-cases (k == j)) [
  | inl same ↦ ground (arith, found, e, lookup-insert k j c s.channels, same, i, l, str_eq_iff k j)
  | inr other ↦ h j d (ground (arith, found, e, lookup-insert k j c s.channels, other))
]

known_channel-next :
    (m : String) (o : Option Channel) (c : Channel) → known_channel m o ≡ next c → o ≡ some c
unfolding known_channel
known_channel-next m none c h = cc
known_channel-next m (some d) c h = ground arith

pub channel_read-next :
    (req : Request) (s s' : Store) (r : Reply)
    → channel_read_op req s ≡ next (r, s')
    → (id : String) × (c : Channel) × (limit : ℤ) × (required req.id ≡ next id)
      × (lookup id s.channels ≡ some c)
      × (value req.limit (pos 100) ≡ next limit)
      × (bad_page (pos c.cursor) limit ≡ false)
      × (r ≡ page_reply c.cursor (pos_part limit) (page c.cursor (pos_part limit) s.events))
      × (s' ≡ record s {
        channels =
            insert c.id
              (deliver c (last_sequence c.cursor (page c.cursor (pos_part limit) s.events)))
              s.channels;
      })
unfolding channel_read_op
channel_read-next req s s' r h =
    let (after, e0, h0) = >>=-eq-next (value (after_number req.after) (pos 0)) _ h in
    let (id, e1, h1) = >>=-eq-next (required req.id) _ h0 in
    let (c, e2, h2) = >>=-eq-next (known_channel _ (lookup id s.channels)) _ h1 in
    let (limit, e3, h3) = >>=-eq-next (value req.limit (pos 100)) _ h2 in
    let (u, e4, h4) = >>=-eq-next (return_if (bad_page (pos c.cursor) limit) _) _ h3 in
    (
      id,
      c,
      limit,
      e1,
      known_channel-next _ _ c e2,
      e3,
      return_if-next _ _ e4,
      ground (arith, h4),
      ground (arith, h4),
    )

-- Opening, reading and acknowledging keep every cursor within what has been delivered.
channel_open-IsSound :
    (req : Request) (s s' : Store) (r : Reply)
    → channel_open_op req s ≡ next (r, s')
    → IsSound s
    → IsSound s'
unfolding channel_open_op open_found open_new
channel_open-IsSound req s s' r h sound =
    let (id, e, h0) = >>=-eq-next (required req.id) _ h in go id (lookup id s.channels) h0
  where
    go : (id : String) (o : Option Channel) → open_found id req s o ≡ next (r, s') → IsSound s'
    go id none k =
        let (after, e, k0) = >>=-eq-next (value (after_number req.after) (pos 0)) _ k in
        let (u, e1, k1) = >>=-eq-next (return_if (ltb_ℤ after (pos 0)) _) _ k0 in
        IsSound-insert s s' id
          (record { id = id; cursor = pos_part after; delivered = pos_part after })
          (ground (arith, k1)) refl (omega arith) sound
    go id (some c) k = λ j d found. sound j d (ground (arith, k, found))

channel_read-IsSound :
    (req : Request) (s s' : Store) (r : Reply)
    → channel_read_op req s ≡ next (r, s')
    → IsSound s
    → IsSound s'
channel_read-IsSound req s s' r h sound =
    let (id, c, limit, e0, found, e1, e2, e3, e4) = channel_read-next req s s' r h in
    let old = sound id c found in
    IsSound-insert s s' c.id
      (deliver c (last_sequence c.cursor (page c.cursor (pos_part limit) s.events)))
      (ap (λ x. x.channels) e4) refl (omega (arith, old)) sound

channel_ack-next :
    (req : Request) (s s' : Store) (r : Reply)
    → channel_ack_op req s ≡ next (r, s')
    → (id : String) × (c : Channel) × (cursor : ℤ) × (required req.id ≡ next id)
      × (lookup id s.channels ≡ some c)
      × (at req.cursor ≡ next cursor)
      × (c.cursor ≤ pos_part cursor)
      × (pos_part cursor ≤ c.delivered)
      × (s' ≡ record s { channels = insert id (record c { cursor = pos_part cursor }) s.channels })
unfolding channel_ack_op
channel_ack-next req s s' r h =
    let (id, e0, h0) = >>=-eq-next (required req.id) _ h in
    let (c, e1, h1) = >>=-eq-next (known_channel _ (lookup id s.channels)) _ h0 in
    let (cursor, e2, h2) = >>=-eq-next (at req.cursor) _ h1 in
    let (u, e3, h3) =
      >>=-eq-next (return_if (ltb_ℤ cursor (pos c.cursor) || ltb_ℤ (pos c.delivered) cursor) _) _
        h2 in
    let within = between cursor c.cursor c.delivered (return_if-next _ _ e3) in
    (id, c, cursor, e0, known_channel-next _ _ c e1, e2, within.0, within.1, ground (arith, h3))
  where
    between :
        (z : ℤ) (lo hi : ℕ)
        → ltb_ℤ z (pos lo) || ltb_ℤ (pos hi) z ≡ false
        → (lo ≤ pos_part z) × (pos_part z ≤ hi)
    between (pos n) lo hi k = ground arith
    between (ℤ.negsuc n) lo hi k = ground arith

channel_ack-IsSound :
    (req : Request) (s s' : Store) (r : Reply)
    → channel_ack_op req s ≡ next (r, s')
    → IsSound s
    → IsSound s'
channel_ack-IsSound req s s' r h sound =
    let (id, c, cursor, e0, found, e1, lo, hi, e) = channel_ack-next req s s' r h in
    IsSound-insert s s' id (record c { cursor = pos_part cursor }) (ap (λ x. x.channels) e)
      (sound id c found).0 hi sound

-- `channel.open`, `channel.read` and `channel.ack` keep each channel under its id, with a cursor that
-- is not ahead of what has been delivered.
pub channels-IsSound :
    (req : Request) (s s' : Store) (r : Reply)
    → IsSound s
    → (channel_open_op req s ≡ next (r, s'))
      ⊎ ((channel_read_op req s ≡ next (r, s')) ⊎ (channel_ack_op req s ≡ next (r, s')))
    → IsSound s'
channels-IsSound req s s' r sound (inl h) = channel_open-IsSound req s s' r h sound
channels-IsSound req s s' r sound (inr (inl h)) = channel_read-IsSound req s s' r h sound
channels-IsSound req s s' r sound (inr (inr h)) = channel_ack-IsSound req s s' r h sound
