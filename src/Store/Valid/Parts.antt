-- ===== src/Store/Valid/Parts.antt =====
-- What a method may do to one table of client/aimless/store.py and stay valid.
use aimless.Prelude.{
  ℕ, ◌≡◌, Bool, true, false, List, [], ◌∷◌, ◌++◌, Text, text_key, chunk_key, select, if◌then◌else◌,
  arith, All,
}
use aimless.Prelude.Table
use aimless.Prelude.Table.{Distinct}
use aimless.Prelude.Table.Laws.{
  insert_or_ignore-Distinct, has-insert_or_ignore, has-update, has-append,
}
use aimless.Store.Rows.{
  Conversation, Message, Watermark, ReadMark, BlockedScreen, Delivery, chunk, Store,
}
use aimless.Store.Conversations.{itself}
use aimless.Store.Messages.{add_deliveries}
use aimless.Store.Valid.{IsListed, IsValid}

-- Each conversation of the first list is in the second.
abbrev Grows : List Conversation → List Conversation → Type 0
Grows cs ds =
    (k : Text) → Table.has Conversation.id k cs ≡ true → Table.has Conversation.id k ds ≡ true

IsListed-Grows :
    (cs ds : List Conversation) (ms : List Message)
    → Grows cs ds
    → All (IsListed cs) ms
    → All (IsListed ds) ms
IsListed-Grows cs ds [] g l = tt
IsListed-Grows cs ds (m ∷ ms) g l = (g m.conv l.0, IsListed-Grows cs ds ms g l.1)

pub IsListed-select :
    (cs : List Conversation) (p : Message → Bool) (ms : List Message)
    → All (IsListed cs) ms
    → All (IsListed cs) (select p ms)
unfolding select
IsListed-select cs p [] l = tt
IsListed-select cs p (m ∷ ms) l = ground (arith, IsListed-select cs p ms l.1)

pub IsListed-insert :
    (cs : List Conversation) (m : Message) (ms : List Message)
    → IsListed cs m
    → All (IsListed cs) ms
    → All (IsListed cs) (Table.insert_or_ignore Message.id m ms)
unfolding Table.insert_or_ignore
IsListed-insert cs m ms n l = ground (arith, IsListed-append ms l)
  where
    IsListed-append : (ms : List Message) → All (IsListed cs) ms → All (IsListed cs) (ms ++ m ∷ [])
    IsListed-append [] l = (n, tt)
    IsListed-append (x ∷ xs) l = (l.0, IsListed-append xs l.1)

pub insert-Grows :
    (c : Conversation) (cs : List Conversation)
    → Grows cs (Table.insert_or_ignore Conversation.id c cs)
insert-Grows c cs k h = ground (arith, has-insert_or_ignore Conversation.id k c cs)

pub update-Grows :
    (f : Conversation → Conversation) (k : Text) (cs : List Conversation)
    → ((c : Conversation) → (f c).id ≡ c.id)
    → Grows cs (Table.update Conversation.id k f cs)
update-Grows f k cs keeps j h = ground (arith, has-update Conversation.id f keeps k j cs)

pub upsert-Grows :
    (c : Conversation) (f : Conversation → Conversation) (cs : List Conversation)
    → ((c : Conversation) → (f c).id ≡ c.id)
    → Grows cs (Table.upsert Conversation.id c f cs)
unfolding Table.upsert
upsert-Grows c f cs keeps j h =
    ground (arith, has-update Conversation.id f keeps c.id j cs, has-append Conversation.id j c cs)

pub IsValid-if : (b : Bool) {s t : Store} → IsValid s → IsValid t → IsValid (if b then s else t)
IsValid-if true v w = v
IsValid-if false v w = w

pub add_deliveries-Distinct :
    (mid : Text) (keys : List (Text × ℕ)) (ds : List Delivery)
    → Distinct chunk ds
    → Distinct chunk (add_deliveries mid keys ds)
unfolding add_deliveries
add_deliveries-Distinct mid [] ds d = d
add_deliveries-Distinct mid ((node, seq) ∷ keys) ds d =
    add_deliveries-Distinct mid keys _ (insert_or_ignore-Distinct chunk _ ds d)

-- What a method does to the conversations and to the messages, each on its own.
module _ {s : Store} (v : IsValid s) where
  pub keep_conversations :
      (cs : List Conversation)
      → Distinct Conversation.id cs
      → Grows s.conversations cs
      → IsValid (record s { conversations = cs })
  keep_conversations cs d g = record {
    conversations = d;
    messages = v.messages;
    watermark = v.watermark;
    read_marks = v.read_marks;
    pending = v.pending;
    blocked_screens = v.blocked_screens;
    muted_nodes = v.muted_nodes;
    deliveries = v.deliveries;
    listed = IsListed-Grows s.conversations cs s.messages g v.listed;
  }

  pub keep_messages :
      (ms : List Message)
      → Distinct Message.id ms
      → All (IsListed s.conversations) ms
      → IsValid (record s { messages = ms })
  keep_messages ms d l = record {
    conversations = v.conversations;
    messages = d;
    watermark = v.watermark;
    read_marks = v.read_marks;
    pending = v.pending;
    blocked_screens = v.blocked_screens;
    muted_nodes = v.muted_nodes;
    deliveries = v.deliveries;
    listed = l;
  }

  pub keep_deliveries :
      (ds : List Delivery) → Distinct chunk ds → IsValid (record s { deliveries = ds })
  keep_deliveries ds d = record {
    conversations = v.conversations;
    messages = v.messages;
    watermark = v.watermark;
    read_marks = v.read_marks;
    pending = v.pending;
    blocked_screens = v.blocked_screens;
    muted_nodes = v.muted_nodes;
    deliveries = d;
    listed = v.listed;
  }

  -- The tables that neither the conversations nor the messages refer to.
  pub keep_others :
      (w : List Watermark) (r : List ReadMark) (b : List BlockedScreen) (m : List Text)
      → Distinct Watermark.peer w
      → Distinct ReadMark.conv r
      → Distinct BlockedScreen.node b
      → Distinct itself m
      → IsValid (record s { watermark = w; read_marks = r; blocked_screens = b; muted_nodes = m })
  keep_others w r b m dw dr db dm = record {
    conversations = v.conversations;
    messages = v.messages;
    watermark = dw;
    read_marks = dr;
    pending = v.pending;
    blocked_screens = db;
    muted_nodes = dm;
    deliveries = v.deliveries;
    listed = v.listed;
  }
