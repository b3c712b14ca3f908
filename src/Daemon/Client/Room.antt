-- ===== src/Daemon/Client/Room.antt =====
-- To whom `send_room` and `send_file_room` of client/aimless/daemon.py send, and what they return.
use mathlib.Core.Option
use aimless.Prelude.{
  ℕ, ◌≡◌, refl, ap, sym, ◌∙◌, not, Option, none, some, List, [], ◌∷◌, ◌++◌, Text, text_eq,
  text_eq_iff, text_key, append-nil, append_assoc, codes, if◌then◌else◌, select, map, All, arith,
  inl, inr, Bool-cases,
}
use aimless.Prelude.Table
use aimless.Prelude.Table.Laws.{find-upsert}
use aimless.Sync.{entry_key, opened}
use aimless.Protocol.Crypto.{Value, num, Fields, get, Crypto}
use aimless.Daemon.Client.{
  Call, Daemon, Member, fan_out, seq_of, with_reply, outcome, triplet, send_call, send_room,
}
use aimless.Protocol.Envelope.{seal_message}
use aimless.Store.Rows.{Bytes}

with_reply-some :
    {S A B : Type 0} (f : A → S → S × Option B) (r : S × Option A) {a : A}
    → r.1 ≡ some a
    → with_reply f r ≡ f a r.0
with_reply-some f (s, none) e = cc
with_reply-some f (s, some b) e = cc

renewed :
    {V : Type 0} (k : Text) (v : V) (t : List (Text × V))
    → Option.map {A = Text × V} {B = Text × V} (λ e. (e.0, v)) (Table.find entry_key k t)
      ≡ (if Table.has entry_key k t then some (k, v) else none)
unfolding Table.find Table.has
renewed k v [] = refl
renewed k v (e ∷ t) = ground (arith, renewed k v t, text_eq_iff e.0 k)

-- What a dictionary holds under a key after an assignment.
find-assigned :
    {V : Type 0} (node k : Text) (v : V) (t : List (Text × V))
    → Table.find entry_key k (Table.upsert entry_key (node, v) (λ e. (e.0, v)) t)
      ≡ (if text_eq node k then some (k, v) else Table.find entry_key k t)
find-assigned node k v t = ground (
  arith,
  find-upsert entry_key k (node, v) (λ e. (e.0, v)) t (λ e. refl),
  renewed k v t,
  text_eq_iff node k,
)

-- The number that the last copy for a node was given.
abbrev pub last_number : Text → List (Member × ℕ) → Option ℕ
last_number node [] = none
last_number node ((m, n) ∷ sent) = elim (last_number node sent) [
  | some k ↦ some k
  | none ↦ if text_eq m.node node then some n else none
]

All-imp :
    {A : Type 0} {P Q : A → Type 0} → ((a : A) → P a → Q a) → (xs : List A) → All P xs → All Q xs
All-imp f [] h = tt
All-imp f (x ∷ xs) h = (f x h.0, All-imp f xs h.1)

-- The daemon answers every call with a sequence number, and keeps the calls with their numbers: the
-- newest comes last.
module _ {J S : Type 0} (daemon : Daemon S J) (log : S → List (Call J × ℕ))
    (reply : Call J → S → Fields J) (number : Call J → S → ℕ)
    (answers : (c : Call J) (s : S) → (daemon c s).1 ≡ some (reply c s))
    (numbered : (c : Call J) (s : S) → get (codes "seq") (reply c s) ≡ some (num (number c s)))
    (keeps : (c : Call J) (s : S) → log (daemon c s).0 ≡ log s ++ (c, number c s) ∷ [])
    (attempt : Member → Option (Call J)) (seal : Member → Call J) (my_node : Text) where
  -- The members that are sent a copy.
  abbrev pub others : List Member → List Member
  others = select (λ m. not (text_eq m.node my_node))

  abbrev entries : List (Member × ℕ) → List (Call J × ℕ)
  entries = map (λ (p : Member × ℕ). (seal p.0, p.1))

  -- What a dictionary holds after the numbers of the copies were put into it.
  abbrev held : Text → List (Member × ℕ) → List (Text × Value J) → Option (Text × Value J)
  held node sent seqs = elim (last_number node sent) [
    | none ↦ Table.find entry_key node seqs
    | some n ↦ some (node, num n)
  ]

  -- The sealing succeeds for each member.
  fan_out_lem :
      (members : List Member) (seqs : List (Text × Value J)) (s : S)
      → All (λ m. attempt m ≡ some (seal m)) members
      → (sent : List (Member × ℕ)) × (result : List (Text × Value J)) × (map
            (λ (p : Member × ℕ). p.0)
            sent
          ≡ others members)
        × ((fan_out daemon attempt my_node members seqs s).1 ≡ some result)
        × (log (fan_out daemon attempt my_node members seqs s).0 ≡ log s ++ entries sent)
        × ((node : Text) → Table.find entry_key node result ≡ held node sent seqs)
  unfolding fan_out select
  fan_out_lem [] seqs s ok = ([], seqs, refl, refl, sym (append-nil (log s)), λ node. refl)
  fan_out_lem (m ∷ members) seqs s ok = elim (Bool-cases (text_eq m.node my_node)) [
    | inl e ↦ rw e (fan_out_lem members seqs s ok.1)
    | inr e ↦
        let resp = reply (seal m) s in
        let n = number (seal m) s in
        let t = (daemon (seal m) s).0 in
        let more = Table.upsert entry_key (m.node, seq_of resp) (λ p. (p.0, seq_of resp)) seqs in
        let (sent, result, who, returns, logged, keys) = fan_out_lem members more t ok.1 in
        rw e (
          rw ok.0 (
            rw
              (with_reply-some
                (λ r u.
                  fan_out daemon attempt my_node members
                    (Table.upsert entry_key (m.node, seq_of r) (λ p. (p.0, seq_of r)) seqs) u)
                (daemon (seal m) s) (answers (seal m) s))
              (
                (m, n) ∷ sent,
                result,
                ap (◌∷◌ m) who,
                returns,
                logged
                    ∙ ap (λ c. c ++ entries sent) (keeps (seal m) s)
                    ∙ append_assoc (log s) ((seal m, n) ∷ []) (entries sent),
                λ node.
                    keys node
                    ∙ ground
                        (arith, find-assigned m.node node (seq_of resp) seqs, numbered (seal m) s),
              )))
  ]

-- A room message is sent to every member but the client itself, once for each and in the order of the
-- members, sealed for that member; and the result leads from the node of each of them to the sequence
-- number that the daemon gave the copy, the last one if there are several, and from no other node to
-- anything. The conditions are that the client knows its own node, that the sealing succeeds for each
-- member, and that the daemon answers every call with a sequence number.
pub send_room_lem :
    {Key J S : Type 0} (crypto : Crypto Key J) (daemon : Daemon S J) (log : S → List (Call J × ℕ))
    (reply : Call J → S → Fields J) (number : Call J → S → ℕ)
    → ((c : Call J) (s : S) → (daemon c s).1 ≡ some (reply c s))
    → ((c : Call J) (s : S) → get (codes "seq") (reply c s) ≡ some (num (number c s)))
    → ((c : Call J) (s : S) → log (daemon c s).0 ≡ log s ++ (c, number c s) ∷ [])
    → (seed : Member → Bytes) (members_json : List (Text × Text × Text) → J) (identity : Key)
      (screen_name : Text) (members : List Member) (conv text : Text) (ts : ℕ) (my_node : Text)
      (s : S) (payload : Member → Text)
    → All
        (λ m.
          seal_message crypto
            (seed m)
            identity
            m.pubkey
            text
            ts
            (some screen_name)
            (some conv)
            (some (members_json (map triplet members)))
          ≡ opened (payload m))
        members
    → let (after, returned) =
        send_room crypto daemon seed members_json identity screen_name members conv text ts
          (some my_node)
          s in
      (sent : List (Member × ℕ)) × (result : List (Text × Value J)) × (map
          (λ (p : Member × ℕ). p.0)
          sent
        ≡ select (λ m. not (text_eq m.node my_node)) members)
      × (returned ≡ some result)
      × (log after.1
          ≡ log s
            ++ map (λ (p : Member × ℕ). (send_call (Member.node p.0) (payload p.0), p.1)) sent)
      × ((node : Text)
          → Table.find entry_key node result
            ≡ Option.map (λ n. (node, num n)) (last_number node sent))
unfolding send_room
send_room_lem crypto daemon log reply number answers numbered keeps seed members_json identity
      screen_name members conv text ts my_node s payload ok =
    let attempt = λ (m : Member). Option.map (send_call m.node) (
      outcome (
        seal_message crypto (seed m) identity m.pubkey text ts (some screen_name) (some conv)
          (some (members_json (map triplet members))))) in
    let seal = λ (m : Member). send_call m.node (payload m) in
    let (sent, result, who, returns, logged, keys) =
      fan_out_lem daemon log reply number answers numbered keeps attempt seal my_node members [] s
        (All-imp (λ m e. ap (λ o. Option.map (send_call m.node) (outcome o)) e) members ok) in
    (sent, result, who, returns, logged, λ node. keys node ∙ (unfold Table.find in ground arith))
