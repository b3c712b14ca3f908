-- ===== src/Store/Conversations.antt =====
-- The ingest cursors, the conversations and the mutes of client/aimless/store.py.
use aimless.Prelude.{
  ℕ, Bool, true, false, not, ◌&&◌, Option, none, some, List, [], ◌∷◌, map, Text, text_key, text_eq,
  ltb, max, select, if◌then◌else◌,
}
use aimless.Prelude.Table
use aimless.Store.Rows.{Bytes, Conversation, Watermark, ReadMark, Store, Box}

-- `cursor`
unfoldable pub cursor : Store → Text → ℕ
cursor s peer = elim (Table.find Watermark.peer peer s.watermark) [ none ↦ 0 | some row ↦ row.seq ]

-- `set_cursor`: ON CONFLICT(peer) DO UPDATE SET seq=MAX(seq, excluded.seq)
unfoldable pub set_cursor : Text → ℕ → Store → Store
set_cursor peer seq s = record s {
  watermark =
      Table.upsert Watermark.peer (record { peer = peer; seq = seq })
        (λ row. record row { seq = max row.seq seq }) s.watermark;
}

module _ {J : Type 0} (box : Box J) where
  -- `_ensure_conv`
  unfoldable pub ensure_conv : Bytes → Text → Bool → Store → Store
  ensure_conv nonce conv dm s = record s {
    conversations =
        Table.insert_or_ignore Conversation.id
          (record {
            id = conv;
            dm = dm;
            members = some (box.seal_json nonce box.empty_object);
            muted = false;
            hidden = false;
          })
          s.conversations;
  }

  -- `ensure_room`
  unfoldable pub ensure_room : Bytes → Text → J → Store → Store
  ensure_room nonce conv members s =
      let sealed = box.seal_json nonce members in
      record s {
        conversations =
            Table.upsert Conversation.id
              (record {
                id = conv;
                dm = false;
                members = some sealed;
                muted = false;
                hidden = false;
              })
              (λ c. record c { dm = false; members = some sealed; hidden = false }) s.conversations;
      }

  -- `members`; `none` where the roster does not open
  unfoldable pub members : Store → Text → Option J
  members s conv = elim (Table.find Conversation.id conv s.conversations) [
    | none ↦ some box.empty_object
    | some c ↦ elim c.members [ none ↦ some box.empty_object | some blob ↦ box.open_json blob ]
  ]

  -- `mute_conversation`
  unfoldable pub mute_conversation : Bytes → Text → Store → Store
  unfolding ensure_conv
  mute_conversation nonce conv s =
      let s' = ensure_conv nonce conv true s in
      record s' {
        conversations =
            Table.update Conversation.id conv (λ c. record c { muted = true }) s'.conversations;
      }

-- `rooms`
unfoldable pub rooms : Store → List Text
rooms s = map Conversation.id (select (λ c. not c.dm && not c.hidden) s.conversations)

-- `is_room`
unfoldable pub is_room : Store → Text → Bool
is_room s conv = elim (Table.find Conversation.id conv s.conversations) [
  | none ↦ false
  | some c ↦ not c.dm
]

-- `clear_history`
unfoldable pub clear_history : Text → Store → Store
clear_history conv s = record s {
  messages = select (λ m. not (text_eq m.conv conv)) s.messages;
  read_marks = Table.delete ReadMark.conv conv s.read_marks;
}

-- The loop at the end of `delete_room` over `scan_points`; a point of 0 is skipped.
unfoldable pub advance_cursors : List (Text × ℕ) → Store → Store
unfolding set_cursor
advance_cursors [] s = s
advance_cursors ((node, latest) ∷ rest) s =
    advance_cursors rest (if ltb 0 latest then set_cursor node latest s else s)

-- `delete_room`
unfoldable pub delete_room : Text → List (Text × ℕ) → Store → Store
unfolding advance_cursors
delete_room conv scan_points s = advance_cursors scan_points (record s {
  messages = select (λ m. not (text_eq m.conv conv)) s.messages;
  read_marks = Table.delete ReadMark.conv conv s.read_marks;
  conversations =
      Table.update Conversation.id conv (λ c. record c { hidden = true }) s.conversations;
})

-- `is_conversation_muted`
unfoldable pub is_conversation_muted : Store → Text → Bool
is_conversation_muted s conv = elim (Table.find Conversation.id conv s.conversations) [
  | none ↦ false
  | some c ↦ c.muted
]

-- `unmute_conversation`
unfoldable pub unmute_conversation : Text → Store → Store
unmute_conversation conv s = record s {
  conversations =
      Table.update Conversation.id conv (λ c. record c { muted = false }) s.conversations;
}

abbrev pub itself : Text → Text
itself node = node

-- `is_muted`, `mute` and `unmute`, of nodes
unfoldable pub is_muted : Store → Text → Bool
is_muted s node = Table.has itself node s.muted_nodes

unfoldable pub mute : Text → Store → Store
mute node s = record s { muted_nodes = Table.insert_or_ignore itself node s.muted_nodes }

unfoldable pub unmute : Text → Store → Store
unmute node s = record s { muted_nodes = Table.delete itself node s.muted_nodes }
