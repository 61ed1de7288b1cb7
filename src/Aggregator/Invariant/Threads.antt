-- ===== src/Aggregator/Invariant/Threads.antt =====
-- What counting a record does to one thread and to the interface.
use netmon.Base.{
  ℕ, zero, suc, ◌+◌, ◌≤◌, ◌≡◌, refl, inl, List, [], ◌∷◌, arith, length, replicate, length-replicate,
}
use netmon.Base.Word.{saturating_add, saturating_add_mono, le-saturating_add, saturating_add-le-max}
use netmon.Capture.Types.{Direction, tx, rx}
use netmon.Resolver.Types.{ProcessInfo}
use netmon.Aggregator.Types.{ThreadStats, Interface, new_stats, thread_key_eq, connection_key_eq}
use netmon.Aggregator.History.Sums.{AllLe, sum}
use netmon.Aggregator.Record.{count_thread, count_interface}
use netmon.Aggregator.Invariant.{Covers, IsThread, IsInterface, Within, BelowPeak}

Covers-count :
    (t c b : ℕ) (h : List ℕ) → Covers t c h → Covers (saturating_add t b) (saturating_add c b) h
unfolding saturating_add
Covers-count t c b h k = ground arith

-- Counting `b` bytes more on both sides keeps the bound.
pub Within-count :
    (counted counted' total b : ℕ)
    → counted' ≤ counted + b
    → Within counted total
    → Within counted' (saturating_add total b)
unfolding saturating_add
Within-count counted counted' total b h w = ground arith

pub saturating_add-le : (a b : ℕ) → saturating_add a b ≤ a + b
unfolding saturating_add
saturating_add-le a b = omega arith

sum-replicate : (n : ℕ) → sum (replicate n 0) ≡ 0
sum-replicate zero = refl
sum-replicate (suc n) = omega (arith, sum-replicate n)

AllLe-replicate : (n : ℕ) (ys : List ℕ) → length ys ≡ n → AllLe (replicate n 0) ys
AllLe-replicate zero ys h = tt
AllLe-replicate (suc n) [] h = absurd (omega arith)
AllLe-replicate (suc n) (y ∷ ys) h = (omega arith, AllLe-replicate n ys (omega arith))

-- A thread that was just met has counted nothing.
pub new_stats-IsThread :
    (f : Interface) (now : ℕ) (info : ProcessInfo) → IsInterface f → IsThread f (new_stats now info)
unfolding new_stats
new_stats-IsThread f now info i = record {
  tx_covers = inl (omega (arith, sum-replicate 300));
  rx_covers = inl (omega (arith, sum-replicate 300));
  tx_le = omega arith;
  rx_le = omega arith;
  tx_current_le = omega arith;
  rx_current_le = omega arith;
  tx_history_le = AllLe-replicate 300 f.tx_history i.tx_length;
  rx_history_le = AllLe-replicate 300 f.rx_history i.rx_length;
  tx_length = length-replicate {A = ℕ} 300 0;
  rx_length = length-replicate {A = ℕ} 300 0;
}

pub count_interface-IsInterface :
    (b : ℕ) (d : Direction) (f : Interface) → IsInterface f → IsInterface (count_interface b d f)
unfolding count_interface
count_interface-IsInterface b tx f i = record {
  tx_covers = Covers-count _ _ b _ i.tx_covers;
  rx_covers = i.rx_covers;
  tx_fits = saturating_add-le-max _ b;
  rx_fits = i.rx_fits;
  tx_current_fits = saturating_add-le-max _ b;
  rx_current_fits = i.rx_current_fits;
  tx_length = i.tx_length;
  rx_length = i.rx_length;
}
count_interface-IsInterface b rx f i = record {
  tx_covers = i.tx_covers;
  rx_covers = Covers-count _ _ b _ i.rx_covers;
  tx_fits = i.tx_fits;
  rx_fits = saturating_add-le-max _ b;
  tx_current_fits = i.tx_current_fits;
  rx_current_fits = saturating_add-le-max _ b;
  tx_length = i.tx_length;
  rx_length = i.rx_length;
}

pub count_interface-BelowPeak :
    (b : ℕ) (d : Direction) (f : Interface)
    → BelowPeak f.peak_bw f.tx_history f.rx_history
    → let f' = count_interface b d f in BelowPeak f'.peak_bw f'.tx_history f'.rx_history
unfolding count_interface
count_interface-BelowPeak b tx f h = h
count_interface-BelowPeak b rx f h = h

-- The record's own thread grows with the interface.
pub count_thread-IsThread :
    (now : ℕ) (info : ProcessInfo) (b : ℕ) (d : Direction) (f : Interface) (s : ThreadStats)
    → IsThread f s
    → IsThread (count_interface b d f) (count_thread now info b d s)
unfolding count_interface count_thread
count_thread-IsThread now info b tx f s t = record {
  tx_covers = Covers-count _ _ b _ t.tx_covers;
  rx_covers = t.rx_covers;
  tx_le = saturating_add_mono _ _ b t.tx_le;
  rx_le = t.rx_le;
  tx_current_le = saturating_add_mono _ _ b t.tx_current_le;
  rx_current_le = t.rx_current_le;
  tx_history_le = t.tx_history_le;
  rx_history_le = t.rx_history_le;
  tx_length = t.tx_length;
  rx_length = t.rx_length;
}
count_thread-IsThread now info b rx f s t = record {
  tx_covers = t.tx_covers;
  rx_covers = Covers-count _ _ b _ t.rx_covers;
  tx_le = t.tx_le;
  rx_le = saturating_add_mono _ _ b t.rx_le;
  tx_current_le = t.tx_current_le;
  rx_current_le = saturating_add_mono _ _ b t.rx_current_le;
  tx_history_le = t.tx_history_le;
  rx_history_le = t.rx_history_le;
  tx_length = t.tx_length;
  rx_length = t.rx_length;
}

-- The other threads stay below it.
pub grown-IsThread :
    (b : ℕ) (d : Direction) (f : Interface) (s : ThreadStats)
    → IsInterface f
    → IsThread f s
    → IsThread (count_interface b d f) s
unfolding count_interface
grown-IsThread b tx f s i t = record {
  tx_covers = t.tx_covers;
  rx_covers = t.rx_covers;
  tx_le = omega (arith, t.tx_le, le-saturating_add f.tx_total b i.tx_fits);
  rx_le = t.rx_le;
  tx_current_le =
      omega (arith, t.tx_current_le, le-saturating_add f.tx_current_second b i.tx_current_fits);
  rx_current_le = t.rx_current_le;
  tx_history_le = t.tx_history_le;
  rx_history_le = t.rx_history_le;
  tx_length = t.tx_length;
  rx_length = t.rx_length;
}
grown-IsThread b rx f s i t = record {
  tx_covers = t.tx_covers;
  rx_covers = t.rx_covers;
  tx_le = t.tx_le;
  rx_le = omega (arith, t.rx_le, le-saturating_add f.rx_total b i.rx_fits);
  tx_current_le = t.tx_current_le;
  rx_current_le =
      omega (arith, t.rx_current_le, le-saturating_add f.rx_current_second b i.rx_current_fits);
  tx_history_le = t.tx_history_le;
  rx_history_le = t.rx_history_le;
  tx_length = t.tx_length;
  rx_length = t.rx_length;
}
