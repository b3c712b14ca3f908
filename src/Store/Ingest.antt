-- ===== src/Store/Ingest.antt =====
-- `ingest` of client/aimless/store.py, delivered once and again.
use aimless.Prelude.{
  ℕ, ◌+◌, ◌≡◌, refl, true, false, not, ◌&&◌, Option, some, [], ◌∷◌, Text, text_key, text_eq,
  text_eq_iff, ltb, count, count-append, if◌then◌else◌, arith,
}
use aimless.Prelude.Table
use aimless.Prelude.Table.Laws.{has-insert_or_ignore, has-update}
use aimless.Store.Rows.{Conversation, Message, inbound, Store, Nonces, Box}
use aimless.Store.Conversations.{ensure_conv}
use aimless.Store.Messages.{
  in_id, ingest, seal_text?, seal_attachment, unread, is_unread, read_upto,
}

module _ {J : Type 0} (box : Box J) (conv sender : Text) (seq : ℕ) where
  -- The row that `ingest` offers to the table.
  abbrev pub offered : Nonces → ℕ → Option Text → Option J → Message
  offered fresh ts text att = record {
    id = in_id sender seq;
    conv = conv;
    sender = sender;
    dir = inbound;
    ts = ts;
    seq = seq;
    seqs = (sender, seq) ∷ [];
    text = seal_text? box (fresh 1) text;
    attachment = seal_attachment box (fresh 2) att;
  }

  module _ (fresh : Nonces) (ts : ℕ) (text : Option Text) (att : Option J) (s : Store) where
    pub messages-ingest :
        (ingest box fresh conv sender seq ts text att s).0.messages
        ≡ Table.insert_or_ignore Message.id (offered fresh ts text att) s.messages
    unfolding ingest ensure_conv
    messages-ingest = ground arith

    pub new-ingest :
        (ingest box fresh conv sender seq ts text att s).1
        ≡ not (Table.has Message.id (in_id sender seq) s.messages)
    unfolding ingest ensure_conv
    new-ingest = refl

    pub has-ingest :
        Table.has Message.id
          (in_id sender seq)
          (ingest box fresh conv sender seq ts text att s).0.messages
        ≡ true
    has-ingest = rw messages-ingest (
        ground (
          arith,
          has-insert_or_ignore Message.id (in_id sender seq) (offered fresh ts text att) s.messages,
          text_eq_iff (in_id sender seq) (in_id sender seq),
        ))

    pub conv-ingest :
        Table.has Conversation.id conv
          (ingest box fresh conv sender seq ts text att s).0.conversations
        ≡ true
    unfolding ingest ensure_conv
    conv-ingest = ground (
      arith,
      has-insert_or_ignore Conversation.id conv
          (record {
            id = conv;
            dm = text_eq conv sender;
            members = some (box.seal_json (fresh 0) box.empty_object);
            muted = false;
            hidden = false;
          })
          s.conversations,
      has-update Conversation.id (λ c. record c { hidden = false }) (λ c. refl) conv conv
          (ensure_conv box (fresh 0) conv (text_eq conv sender) s).conversations,
      text_eq_iff conv conv,
    )

  -- What is already stored is not stored again: the state stays as it is.
  ingest_present :
      (fresh : Nonces) (ts : ℕ) (text : Option Text) (att : Option J) (s : Store)
      → Table.has Message.id (in_id sender seq) s.messages ≡ true
      → Table.has Conversation.id conv s.conversations ≡ true
      → ingest box fresh conv sender seq ts text att s ≡ (s, false)
  unfolding ingest ensure_conv Table.insert_or_ignore
  ingest_present fresh ts text att s old known = rw (known, old)

  -- To ingest a message again, with the same sender, sequence number and conversation, changes
  -- nothing and reports that nothing is new, whatever timestamp and content come with it.
  pub ingest_idempotent :
      (fresh fresh' : Nonces) (ts ts' : ℕ) (text text' : Option Text) (att att' : Option J)
      (s : Store)
      → ingest box fresh' conv sender seq ts' text' att'
          (ingest box fresh conv sender seq ts text att s).0
        ≡ ((ingest box fresh conv sender seq ts text att s).0, false)
  ingest_idempotent fresh fresh' ts ts' text text' att att' s =
      ingest_present fresh' ts' text' att' (ingest box fresh conv sender seq ts text att s).0
        (has-ingest fresh ts text att s) (conv-ingest fresh ts text att s)

  module _ (fresh : Nonces) (ts : ℕ) (text : Option Text) (att : Option J) (s : Store) where
    read_upto-ingest :
        (c : Text) → read_upto (ingest box fresh conv sender seq ts text att s).0 c ≡ read_upto s c
    unfolding ingest ensure_conv
    read_upto-ingest c = ground arith

    -- A message that `ingest` reports as new adds one to the unread count of its conversation if it
    -- is later than what was read there; all other counts stay, and a message that is not new
    -- changes none.
    pub unread-ingest :
        (c : Text)
        → unread (ingest box fresh conv sender seq ts text att s).0 c
          ≡ unread s c
            + (if (ingest box fresh conv sender seq ts text att s).1
                  && (text_eq conv c && ltb (read_upto s c) ts)
                then 1
                else 0)
    unfolding unread
    unread-ingest c = rw (messages-ingest, read_upto-ingest) (new_message c)
      where
        new_message :
            (c : Text)
            → count
                (is_unread c (read_upto s c))
                (Table.insert_or_ignore Message.id (offered fresh ts text att) s.messages)
              ≡ count (is_unread c (read_upto s c)) s.messages
                + (if (ingest box fresh conv sender seq ts text att s).1
                      && (text_eq conv c && ltb (read_upto s c) ts)
                    then 1
                    else 0)
        new_message c =
            unfold ingest ensure_conv Table.insert_or_ignore count in
            ground (
              arith,
              count-append (is_unread c (read_upto s c)) s.messages
                  (offered fresh ts text att ∷ []),
            )
