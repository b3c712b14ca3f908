-- ===== src/Store/Deliveries/Summary.antt =====
-- `_delivery_summary` and `delivery_members` of client/aimless/store.py.
use aimless.Prelude.{
  ℕ, suc, ◌+◌, ◌≡◌, refl, ap, Bool, true, not, ◌&&◌, ◌||◌, none, some, List, [], ◌∷◌, map, foldl,
  Text, text_key, text_eq, text_eq_iff, ◌==◌, select, count, length, any, if◌then◌else◌, arith,
  Bool-cases, inl, inr,
}
use aimless.Prelude.Table
use aimless.Prelude.Table.Laws.{find-upsert, has-eq-found, has-update, has-append}
use aimless.Store.Rows.{Delivery, Store}
use aimless.Store.Deliveries.{
  rows_of, is_acked, groups, recipient, recipient_eq, Summary, summary_key, summary_get, summarise,
  delivery_members, is_nonempty, delivery_summary,
}
use aimless.Store.Deliveries.Groups.{groups-recipient, rows_of-any, rows_of-none, select-recipient}

abbrev complete : List Delivery → Text × Text → Bool
complete rows g =
    let group = select (λ d. recipient_eq (recipient d) g) rows in
    count is_acked group == length group

-- One group counts once for its message, and as done if all its rows are acked.
summary_get-summarise :
    (rows : List Delivery) (sm : Summary) (g : Text × Text) (mid : Text)
    → summary_get (summarise rows sm g) mid ≡ (
        if text_eq g.0 mid
        then (
          (summary_get sm mid).0 + 1,
          (summary_get sm mid).1 + (if complete rows g then 1 else 0),
        )
        else summary_get sm mid)
unfolding summarise summary_get
summary_get-summarise rows sm (m, n) mid =
    let entry : ℕ × ℕ =
      ((summary_get sm m).0 + 1, (summary_get sm m).1 + (if complete rows (m, n) then 1 else 0)) in
    ground (
      arith,
      find-upsert summary_key mid (m, entry) (λ e. (e.0, entry)) sm (λ e. refl),
      has-eq-found summary_key mid sm,
      text_eq_iff m mid,
    )

summary_get-foldl :
    (rows : List Delivery) (gs : List (Text × Text)) (sm : Summary) (mid : Text)
    → summary_get (foldl (summarise rows) sm gs) mid ≡ (
      (summary_get sm mid).0 + length (select (λ g. text_eq g.0 mid) gs),
      (summary_get sm mid).1 + count (complete rows) (select (λ g. text_eq g.0 mid) gs),
    )
unfolding select count
summary_get-foldl rows [] sm mid = ground arith
summary_get-foldl rows (g ∷ gs) sm mid = ground (
  arith,
  summary_get-foldl rows gs (summarise rows sm g) mid,
  summary_get-summarise rows sm g mid,
)

length-map {ℓ κ} :
    {A : Type ℓ} {B : Type κ} (f : A → B) (xs : List A) → length (map f xs) ≡ length xs
length-map f [] = refl
length-map f (x ∷ xs) = ap suc (length-map f xs)

-- The complete groups among the nodes of a message.
count-complete :
    (rows rows' : List Delivery) (mid : Text) (nodes : List Text)
    → rows_of mid rows ≡ rows'
    → count (complete rows) (map (λ n. (mid, n)) nodes)
      ≡ count
          (λ n.
            let group = select (λ d. text_eq d.node n) rows' in
            count is_acked group == length group)
          nodes
unfolding count
count-complete rows rows' mid [] h = refl
count-complete rows rows' mid (n ∷ nodes) h =
    ground (arith, count-complete rows rows' mid nodes h, select-recipient mid n rows)

-- An entry of the summary, by whether there is one.
find-summary :
    (sm : Summary) (mid : Text)
    → Table.find summary_key mid sm
      ≡ (if Table.has summary_key mid sm then some (mid, summary_get sm mid) else none)
unfolding Table.find Table.has summary_get
find-summary [] mid = refl
find-summary (e ∷ sm) mid = ground (arith, find-summary sm mid, text_eq_iff e.0 mid)

has-foldl :
    (rows : List Delivery) (gs : List (Text × Text)) (sm : Summary) (mid : Text)
    → Table.has summary_key mid (foldl (summarise rows) sm gs)
      ≡ (Table.has summary_key mid sm || not (length (select (λ g. text_eq g.0 mid) gs) == 0))
unfolding select summarise Table.upsert
has-foldl rows [] sm mid = ground arith
has-foldl rows ((m, n) ∷ gs) sm mid =
    let entry : ℕ × ℕ =
      ((summary_get sm m).0 + 1, (summary_get sm m).1 + (if complete rows (m, n) then 1 else 0)) in
    ground (
      arith,
      has-foldl rows gs (summarise rows sm (m, n)) mid,
      has-update summary_key (λ e. (e.0, entry)) (λ e. refl) m mid sm,
      has-append summary_key mid (m, entry) sm,
      text_eq_iff m mid,
    )

-- There are groups exactly where there are rows.
groups_empty : (l : List Text) → (length (groups text_eq l) == 0) ≡ (length l == 0)
unfolding groups any
groups_empty [] = refl
groups_empty (a ∷ []) = refl
groups_empty (a ∷ b ∷ l) = ground (arith, groups_empty (b ∷ l))

any-select_nonempty :
    (mid : Text) (mids : List Text)
    → any (text_eq mid) (select is_nonempty mids) ≡ (is_nonempty mid && any (text_eq mid) mids)
unfolding any select text_eq
any-select_nonempty mid [] = ground arith
any-select_nonempty [] ([] ∷ mids) = any-select_nonempty [] mids
any-select_nonempty [] ((d ∷ ds) ∷ mids) = ground (arith, any-select_nonempty [] mids)
any-select_nonempty (c ∷ cs) ([] ∷ mids) = ground (arith, any-select_nonempty (c ∷ cs) mids)
any-select_nonempty (c ∷ cs) ((d ∷ ds) ∷ mids) = ground (arith, any-select_nonempty (c ∷ cs) mids)

-- The rows that a query asks for, and the summary of their groups.
abbrev asked_rows : Store → List Text → List Delivery
asked_rows s ids = select (λ d. any (text_eq d.msg_id) ids) s.deliveries

abbrev summary_of : List Delivery → Summary
summary_of rows = foldl (summarise rows) [] (groups recipient_eq (map recipient rows))

summary_of-counts :
    (s : Store) (ids : List Text) (mid : Text)
    → any (text_eq mid) ids ≡ true
    → summary_get (summary_of (asked_rows s ids)) mid ≡ delivery_members s mid
unfolding delivery_members
summary_of-counts s ids mid asked =
    let rows = asked_rows s ids in
    let nodes = groups text_eq (map Delivery.node (rows_of mid s.deliveries)) in
    let same = rows_of-any mid ids s.deliveries asked in
    rw
      (
        summary_get-foldl rows (groups recipient_eq (map recipient rows)) [] mid,
        groups-recipient mid rows,
        same,
      )
      (rw
        (
          length-map {B = Text × Text} (λ n. (mid, n)) nodes,
          count-complete rows (rows_of mid s.deliveries) mid nodes same,
        )
        (unfold summary_get Table.find in ground arith))

has-summary_of :
    (rows : List Delivery) (mid : Text)
    → Table.has summary_key mid (summary_of rows) ≡ not (length (rows_of mid rows) == 0)
has-summary_of rows mid =
    let names = map Delivery.node (rows_of mid rows) in
    rw (has-foldl rows (groups recipient_eq (map recipient rows)) [] mid, groups-recipient mid rows)
      (rw
        (
          length-map {B = Text × Text} (λ n. (mid, n)) (groups text_eq names),
          groups_empty names,
          length-map Delivery.node (rows_of mid rows),
        )
        (unfold Table.has in refl))

-- The summary has an entry exactly for each non-empty id that was asked for and has tracked chunks,
-- and that entry is the number of recipients and of fully delivered recipients that
-- `delivery_members` computes.
pub delivery_summary_lem :
    (s : Store) (mids : List Text) (mid : Text)
    → Table.find summary_key mid (delivery_summary s mids) ≡ (
        if is_nonempty mid
          && (any (text_eq mid) mids && not (length (rows_of mid s.deliveries) == 0))
        then some (mid, delivery_members s mid)
        else none)
unfolding delivery_summary
delivery_summary_lem s mids mid =
    let ids = select is_nonempty mids in
    elim (Bool-cases (any (text_eq mid) ids)) [
      | inl asked ↦
          rw
            (
              find-summary (summary_of (asked_rows s ids)) mid,
              has-summary_of (asked_rows s ids) mid,
            )
            (rw (rows_of-any mid ids s.deliveries asked, summary_of-counts s ids mid asked)
              (ground (arith, any-select_nonempty mid mids, asked)))
      | inr other ↦
          rw
            (
              find-summary (summary_of (asked_rows s ids)) mid,
              has-summary_of (asked_rows s ids) mid,
            )
            (rw (rows_of-none mid ids s.deliveries other)
              (ground (arith, any-select_nonempty mid mids, other)))
    ]
