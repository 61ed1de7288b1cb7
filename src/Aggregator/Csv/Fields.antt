-- ===== src/Aggregator/Csv/Fields.antt =====
-- A line of the history file has thirteen fields, whatever the names contain.
use mathlib.Core.List.{append_assoc}
use netmon.Base.{ℕ, ◌≡◌, ◌≢◌, ap, ◌∙◌, List, [], ◌∷◌, ◌++◌, All-append, arith, All, All-map}
use netmon.Base.Text.{Text, text, Without, split_on, split_on_absent, split_on-append}
use netmon.Base.Numbers.{decimal, decimal-IsDigit}
use netmon.Aggregator.Types.{HistoryCsvRow}
use netmon.Aggregator.Csv.{sanitize_char, sanitize_csv, csv_fields, csv_line, join_commas}

sanitize_char-ne : (c : ℕ) → sanitize_char c ≢ 44
unfolding sanitize_char
sanitize_char-ne c = ground arith

sanitize_csv-Without : (s : Text) → Without 44 (sanitize_csv s)
unfolding sanitize_csv
sanitize_csv-Without [] = tt
sanitize_csv-Without (c ∷ s) = (sanitize_char-ne c, sanitize_csv-Without s)

decimal-Without : (n : ℕ) → Without 44 (decimal n)
decimal-Without n = All-map (λ c h p. absurd (omega (arith, h.0))) (decimal n) (decimal-IsDigit n)

-- A text behind the last of several.
append_last : Text → List Text → List Text
append_last s [] = []
append_last s (f ∷ []) = (f ++ s) ∷ []
append_last s (f ∷ (g ∷ fs)) = f ∷ append_last s (g ∷ fs)

split_on-join_commas :
    (s f : Text) (fs : List Text)
    → Without 44 s
    → Without 44 f
    → All (Without 44) fs
    → split_on 44 (join_commas (f ∷ fs) ++ s) ≡ append_last s (f ∷ fs)
unfolding join_commas append_last
split_on-join_commas s f [] n h hs = split_on_absent 44 (f ++ s) (All-append (λ c. c ≢ 44) f s h n)
split_on-join_commas s f (g ∷ fs) n h hs =
    ap (split_on 44) (append_assoc f (44 ∷ join_commas (g ∷ fs)) s)
    ∙ split_on-append 44 f (join_commas (g ∷ fs) ++ s) h
    ∙ ap (◌∷◌ f) (split_on-join_commas s g fs n hs.0 hs.1)

-- Splitting a line of the history file at its commas gives the thirteen values in this order, the
-- three names with their commas and quotes replaced, whatever these were; the newline stands behind the
-- last value.
pub split_on-csv_line :
    (row : HistoryCsvRow)
    → split_on 44 (csv_line row)
      ≡ decimal row.timestamp
        ∷ decimal row.pid
        ∷ decimal row.tid
        ∷ sanitize_csv row.process
        ∷ sanitize_csv row.thread
        ∷ sanitize_csv row.user
        ∷ decimal row.uid
        ∷ decimal row.tx_bytes_total
        ∷ decimal row.rx_bytes_total
        ∷ decimal row.tx_2s_avg
        ∷ decimal row.rx_2s_avg
        ∷ decimal row.tx_10s_avg
        ∷ (decimal row.rx_10s_avg ++ text "\n")
        ∷ []
unfolding csv_line csv_fields append_last
split_on-csv_line row =
    split_on-join_commas (text "\n") (decimal row.timestamp) _ ((λ p. omega (arith, p)), tt)
      (decimal-Without row.timestamp)
      (
        decimal-Without row.pid,
        (
          decimal-Without row.tid,
          (
            sanitize_csv-Without row.process,
            (
              sanitize_csv-Without row.thread,
              (
                sanitize_csv-Without row.user,
                (
                  decimal-Without row.uid,
                  (
                    decimal-Without row.tx_bytes_total,
                    (
                      decimal-Without row.rx_bytes_total,
                      (
                        decimal-Without row.tx_2s_avg,
                        (
                          decimal-Without row.rx_2s_avg,
                          (decimal-Without row.tx_10s_avg, (decimal-Without row.rx_10s_avg, tt)),
                        ),
                      ),
                    ),
                  ),
                ),
              ),
            ),
          ),
        ),
      )
