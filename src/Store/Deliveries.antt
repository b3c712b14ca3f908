-- ===== src/Store/Deliveries.antt =====
-- The delivery acks and the rendered messages of client/aimless/store.py.
pub mod Progress
pub mod Groups
pub mod Summary
use aimless.Prelude.{
  ℕ, ◌+◌, ◌≡◌, Bool, true, false, not, ◌&&◌, ◌||◌, Option, none, some, List, [], ◌∷◌, ◌++◌, map,
  foldl, Text, text_key, chunk_key, text_eq, ltb, ◌==◌, select, count, length, any, if◌then◌else◌,
}
use aimless.Prelude.Table
use aimless.Prelude.Sort.{text_le, sort_by}
use aimless.Store.Rows.{Dir, inbound, outbound, Message, Delivery, chunk, Store, Box}

-- The rows WHERE msg_id=mid
abbrev pub rows_of : Text → List Delivery → List Delivery
rows_of mid = select (λ d. text_eq d.msg_id mid)

abbrev pub is_acked : Delivery → Bool
is_acked d = d.acked

-- `delivery_progress`: how many chunks are tracked, and how many of them are acked
unfoldable pub delivery_progress : Store → Text → ℕ × ℕ
delivery_progress s mid =
    (length (rows_of mid s.deliveries), count is_acked (rows_of mid s.deliveries))

-- `is_delivered`; `none` where nothing is tracked
unfoldable pub is_delivered : Store → Text → Option Bool
is_delivered s mid =
    let total = length (rows_of mid s.deliveries) in
    if total == 0 then none else some (count is_acked (rows_of mid s.deliveries) == total)

-- `undelivered`
unfoldable pub undelivered : Store → Text → List (Text × ℕ)
undelivered s mid = map chunk (select (λ d. text_eq d.msg_id mid && not d.acked) s.deliveries)

-- The groups of GROUP BY: the values of a column, each of them once.
unfoldable pub groups {ℓ} : {A : Type ℓ} → (A → A → Bool) → List A → List A
groups eq [] = []
groups eq (a ∷ l) = let rest = groups eq l in if any (eq a) l then rest else a ∷ rest

-- `delivery_members`: how many recipients there are, and how many have acked all their chunks
unfoldable pub delivery_members : Store → Text → ℕ × ℕ
delivery_members s mid =
    let rows = rows_of mid s.deliveries in
    let nodes = groups text_eq (map Delivery.node rows) in
    (
      length nodes,
      count
          (λ node.
            let group = select (λ d. text_eq d.node node) rows in
            count is_acked group == length group)
          nodes,
    )

-- The part of `mark_delivered` after the row was looked up.
unfoldable pub acknowledge : Option Delivery → Text → ℕ → Store → Store × Option Text
acknowledge none node seq s = (s, none)
acknowledge (some row) node seq s = (
  (if row.acked then s else record s {
    deliveries = Table.update chunk (node, seq) (λ d. record d { acked = true }) s.deliveries;
  }),
  some row.msg_id,
)

-- `mark_delivered`
unfoldable pub mark_delivered : Text → ℕ → Store → Store × Option Text
unfolding acknowledge
mark_delivered node seq s = acknowledge (Table.find chunk (node, seq) s.deliveries) node seq s

-- A message with a recipient: the groups of `_delivery_summary`.
abbrev pub recipient : Delivery → Text × Text
recipient d = (d.msg_id, d.node)

unfoldable pub recipient_eq : Text × Text → Text × Text → Bool
recipient_eq (m, n) (m', n') = text_eq m m' && text_eq n n'

abbrev pub Summary : Type 0
Summary = List (Text × (ℕ × ℕ))

abbrev pub summary_key : Text × (ℕ × ℕ) → Text
summary_key e = e.0

-- `summary.get(mid, (0, 0))`
unfoldable pub summary_get : Summary → Text → ℕ × ℕ
summary_get summary mid = elim (Table.find summary_key mid summary) [ none ↦ (0, 0) | some e ↦ e.1 ]

-- One round of the loop of `_delivery_summary`, for the group `g`.
unfoldable pub summarise : List Delivery → Summary → Text × Text → Summary
summarise rows summary g =
    let group = select (λ d. recipient_eq (recipient d) g) rows in
    let (total, done) = summary_get summary g.0 in
    let complete = count is_acked group == length group in
    let entry : ℕ × ℕ = (total + 1, done + (if complete then 1 else 0)) in
    Table.upsert summary_key (g.0, entry) (λ e. (e.0, entry)) summary

-- `if m` of a message id
abbrev pub is_nonempty : Text → Bool
is_nonempty [] = false
is_nonempty (c ∷ cs) = true

-- `_delivery_summary`; with no ids there are no rows, and the summary is empty.
unfoldable pub delivery_summary : Store → List Text → Summary
delivery_summary s mids =
    let ids = select is_nonempty mids in
    let rows = select (λ d. any (text_eq d.msg_id) ids) s.deliveries in
    foldl (summarise rows) [] (groups recipient_eq (map recipient rows))

-- ORDER BY ts, id
abbrev pub row_le : Message → Message → Bool
row_le a b = if a.ts == b.ts then text_le a.id b.id else ltb a.ts b.ts

-- The rows of `messages`, in their order.
unfoldable pub message_rows : Store → Text → List Message
message_rows s conv = sort_by row_le (select (λ m. text_eq m.conv conv) s.messages)

-- The dictionary of `_row_to_msg`; the last three are absent for a message that was received.
pub record Rendered (J : Type 0) : Type 0 where
  pub id : Text
  pub dir : Dir
  pub seqs : List (Text × ℕ)
  pub ts : ℕ
  pub sender : Text
  pub text : Option Text
  pub attachment : Option J
  pub delivered : Option Bool
  pub delivery_total : Option ℕ
  pub delivered_count : ℕ

module _ {J : Type 0} (box : Box J) where
  -- `_dec`; a blob that does not open raises, which is the outer `none`
  abbrev pub open_text? : Option Text → Option (Option Text)
  open_text? b = elim b [
    | none ↦ some none
    | some blob ↦ elim (box.open_text blob) [ none ↦ none | some t ↦ some (some t) ]
  ]

  abbrev pub open_attachment : Option Text → Option (Option J)
  open_attachment b = elim b [
    | none ↦ some none
    | some blob ↦ elim (box.open_json blob) [ none ↦ none | some j ↦ some (some j) ]
  ]

  -- The delivery fields of an outgoing message, from its entry in the summary.
  abbrev pub delivery_fields : Dir → Option (ℕ × ℕ) → Option Bool × Option ℕ × ℕ
  delivery_fields inbound e = (none, none, 0)
  delivery_fields outbound none = (none, none, 0)
  delivery_fields outbound (some (total, acked)) = (some (acked == total), some total, acked)

  abbrev pub summary_entry : Summary → Text → Option (ℕ × ℕ)
  summary_entry summary mid = elim (Table.find summary_key mid summary) [
    | none ↦ none
    | some e ↦ some e.1
  ]

  -- `_row_to_msg`
  unfoldable pub row_to_msg : Message → Summary → Option (Rendered J)
  row_to_msg m summary = elim (open_text? m.text) [
    | none ↦ none
    | some text ↦ elim (open_attachment m.attachment) [
      | none ↦ none
      | some attachment ↦
          let fields = delivery_fields m.dir (summary_entry summary m.id) in
          some (record {
            id = m.id;
            dir = m.dir;
            seqs = m.seqs;
            ts = m.ts;
            sender = m.sender;
            text = text;
            attachment = attachment;
            delivered = fields.0;
            delivery_total = fields.1;
            delivered_count = fields.2;
          })
    ]
  ]

  unfoldable pub render_all : List Message → Summary → Option (List (Rendered J))
  unfolding row_to_msg
  render_all [] summary = some []
  render_all (m ∷ ms) summary = elim (row_to_msg m summary) [
    | none ↦ none
    | some r ↦ elim (render_all ms summary) [ none ↦ none | some rs ↦ some (r ∷ rs) ]
  ]

  -- `messages`
  unfoldable pub messages : Store → Text → Option (List (Rendered J))
  unfolding render_all
  messages s conv =
      let rows = message_rows s conv in render_all rows (delivery_summary s (map Message.id rows))
