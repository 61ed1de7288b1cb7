-- ===== src/Gui/Export/Written.antt =====
-- The exported file holds the session's rows, as the history file writes them, in order.
use mathlib.Core.List.{Perm, append_assoc, append-nil}
use mathlib.Core.List.Perm
use netmon.Base.{
  ℕ, suc, ◌≡◌, ◌≢◌, refl, ap, ◌∙◌, Bool, true, false, List, [], ◌∷◌, ◌++◌, none, some, arith, All,
  All-map, if_cases,
}
use netmon.Base.Text.{Text}
use netmon.Aggregator.Types.{HistoryCsvRow}
use netmon.Aggregator.Csv
use netmon.Aggregator.Csv.{csv_fields, csv_line, csv_lines, sanitize_char}
use netmon.Gui.Types.{NetmonApp}
use netmon.Gui.Export.{
  sanitize_csv, header, export_line, history_le, insert_history, sort_history, Disk, write_rows,
  create_file, export_rows, export_csv,
}

abbrev pub IsSortedHistory : List HistoryCsvRow → Type 0
IsSortedHistory [] = Unit {0}
IsSortedHistory (r ∷ rs) = All (λ x. history_le r x ≡ true) rs × IsSortedHistory rs

history_le_total : (a b : HistoryCsvRow) → history_le a b ≡ false → history_le b a ≡ true
unfolding history_le
history_le_total a b h = ground arith

history_le_trans :
    (a b c : HistoryCsvRow) → history_le a b ≡ true → history_le b c ≡ true → history_le a c ≡ true
unfolding history_le
history_le_trans a b c h k = ground arith

sanitize_csv-same : (v : Text) → sanitize_csv v ≡ Csv.sanitize_csv v
unfolding sanitize_csv Csv.sanitize_csv sanitize_char
sanitize_csv-same [] = refl
sanitize_csv-same (c ∷ v) = ground (arith, sanitize_csv-same v)

-- An exported line is the line of the history file.
export_line-csv_line : (row : HistoryCsvRow) → export_line row ≡ csv_line row
unfolding export_line csv_line csv_fields
export_line-csv_line row =
    rw (sanitize_csv-same row.process, sanitize_csv-same row.thread, sanitize_csv-same row.user)
      refl

All-insert_history :
    (P : HistoryCsvRow → Type 0) (r : HistoryCsvRow) (rs : List HistoryCsvRow)
    → P r
    → All P rs
    → All P (insert_history r rs)
unfolding insert_history
All-insert_history P r [] h a = (h, tt)
All-insert_history P r (x ∷ xs) h a =
    if_cases (All P) (history_le r x) _ _ (λ y. (h, a))
      (λ n. (a.0, All-insert_history P r xs h a.1))

insert_history-IsSortedHistory :
    (r : HistoryCsvRow) (rs : List HistoryCsvRow)
    → IsSortedHistory rs
    → IsSortedHistory (insert_history r rs)
unfolding insert_history
insert_history-IsSortedHistory r [] s = (tt, tt)
insert_history-IsSortedHistory r (x ∷ xs) s =
    if_cases IsSortedHistory (history_le r x) _ _
      (λ y. ((y, All-map (λ z. history_le_trans r x z y) xs s.0), s))
      (λ n. (
        All-insert_history (λ z. history_le x z ≡ true) r xs (history_le_total r x n) s.0,
        insert_history-IsSortedHistory r xs s.1,
      ))

sort_history-IsSortedHistory : (rs : List HistoryCsvRow) → IsSortedHistory (sort_history rs)
unfolding sort_history
sort_history-IsSortedHistory [] = tt
sort_history-IsSortedHistory (r ∷ rs) =
    insert_history-IsSortedHistory r _ (sort_history-IsSortedHistory rs)

insert_history-Perm :
    (r : HistoryCsvRow) (rs : List HistoryCsvRow) → Perm (insert_history r rs) (r ∷ rs)
unfolding insert_history
insert_history-Perm r [] = Perm.rfl
insert_history-Perm r (x ∷ xs) =
    if_cases (λ l. Perm l (r ∷ (x ∷ xs))) (history_le r x) _ _ (λ y. Perm.rfl)
      (λ n. Perm.trans (Perm.cons x (insert_history-Perm r xs)) (Perm.swap r x xs))

sort_history-Perm : (rs : List HistoryCsvRow) → Perm (sort_history rs) rs
unfolding sort_history
sort_history-Perm [] = Perm.rfl
sort_history-Perm (r ∷ rs) =
    Perm.trans (insert_history-Perm r (sort_history rs)) (Perm.cons r (sort_history-Perm rs))

write_rows_all :
    (writes : ℕ → Bool) (n : ℕ) (rows : List HistoryCsvRow) (file : Text)
    → ((m : ℕ) → writes m ≡ true)
    → write_rows writes n rows file ≡ (true, file ++ csv_lines rows)
unfolding write_rows csv_lines
write_rows_all writes n [] file w = rw (append-nil file) refl
write_rows_all writes n (row ∷ rest) file w = rw (w n) (
    write_rows_all writes (suc n) rest (file ++ export_line row) w
    ∙ rw (append_assoc file (export_line row) (csv_lines rest), export_line-csv_line row) refl)

-- An export that the disk lets through, with a history that is not empty, writes the header and then
-- the session's rows, each as often as it was recorded, as the history file writes them and in the
-- order of time, process and thread.
pub export_csv-csv_lines :
    (d : Disk) (a : NetmonApp)
    → a.session_history_snapshot ≢ []
    → d.create_error ≡ none
    → ((n : ℕ) → d.writes n ≡ true)
    → ((export_csv d a).1 ≡ some (header ++ csv_lines (sort_history a.session_history_snapshot)))
      × IsSortedHistory (sort_history a.session_history_snapshot)
      × Perm (sort_history a.session_history_snapshot) a.session_history_snapshot
unfolding export_csv
export_csv-csv_lines d a some_rows created w = (
  written a.session_history_snapshot some_rows,
  sort_history-IsSortedHistory a.session_history_snapshot,
  sort_history-Perm a.session_history_snapshot,
)
  where
    written :
        (rows : List HistoryCsvRow)
        → rows ≢ []
        → (export_rows d rows a).1 ≡ some (header ++ csv_lines (sort_history rows))
    written [] n = absurd (n refl)
    written (r ∷ rs) n =
        ap (λ e. (create_file d (r ∷ rs) a e).1) created
        ∙ rw (w 0, write_rows_all d.writes 1 (sort_history (r ∷ rs)) header w) refl
