-- ===== src/Delta/Rabin/Create/Scan.antt =====
-- The scan of a bucket and the two extensions of a match in `create_delta_inner`.
use git_internal.Base.{
  ℕ, zero, suc, ◌+◌, ◌-◌, ◌^◌, ◌≤◌, ◌<◌, min, Bool, not, List, [], ◌∷◌, Bytes, IsByte, All, leb,
  ltb, ◌==◌, length, take, drop, get_or, ◌≡◌, refl, Result, ok, ltb→lt, arith, ap, sym, ◌∙◌,
  Bool-cases, inl, inr, dec_lt, get_or-drop, get_or-take, take-eq, length-take, length-drop, ==_iff,
  if_elim,
}
use git_internal.Delta.Rabin.Match.{extend_match}
use git_internal.Delta.Rabin.Match.Words.{common_prefix}
use git_internal.Delta.Rabin.Match.Reference.{extend_match-common_prefix}
use git_internal.Delta.Rabin.Create.{Best, Stop, scan_bucket, back_extend}
use git_internal.Delta.Rabin.Index.{IndexEntry}
use git_internal.Delta.Rabin.Hash.{u32}

-- The `n` bytes of the source from `off` on are those of the target from `pos` on.
pub record Matches (src target : Bytes) (off pos n : ℕ) : Type 0 where
  pub src_fits : off + n ≤ length src
  pub target_fits : pos + n ≤ length target
  pub agrees : (k : ℕ) → k < n → get_or src (off + k) 0 ≡ get_or target (pos + k) 0

common_prefix_agrees :
    (xs ys : Bytes)
    → (common_prefix xs ys ≤ length xs)
      × (common_prefix xs ys ≤ length ys)
      × ((k : ℕ) → k < common_prefix xs ys → get_or xs k 0 ≡ get_or ys k 0)
unfolding common_prefix
common_prefix_agrees [] ys = (omega arith, omega arith, λ k h. absurd (omega arith))
common_prefix_agrees (x ∷ xs) [] = (omega arith, omega arith, λ k h. absurd (omega arith))
common_prefix_agrees (x ∷ xs) (y ∷ ys) = elim (Bool-cases (x == y)) [
  | inl same ↦
      let (hx, hy, h) = common_prefix_agrees xs ys in
      rw same (
        omega arith,
        omega arith,
        elim [ zero ↦ λ lt. (==_iff x y).0 same | suc k ↦ λ lt. h k (omega arith) ],
      )
  | inr differ ↦ rw differ (omega arith, omega arith, λ k h. absurd (omega arith))
]

module _ (src target : Bytes) (src_bytes : All IsByte src) (target_bytes : All IsByte target) where
  extend_match-Matches :
      (off pos cap : ℕ)
      → off ≤ length src
      → pos ≤ length target
      → Matches src target off pos (extend_match src target off pos cap)
  extend_match-Matches off pos cap ho hp =
      let xs : Bytes = take cap (drop off src) in
      let ys : Bytes = take cap (drop pos target) in
      let n : ℕ = extend_match src target off pos cap in
      let same : n ≡ common_prefix xs ys =
        extend_match-common_prefix src target off pos cap src_bytes target_bytes in
      let (hx, hy, h) = common_prefix_agrees xs ys in
      record {
        src_fits = omega (arith, length-take cap (drop off src), length-drop off src);
        target_fits = omega (arith, length-take cap (drop pos target), length-drop pos target);
        agrees = λ k hk.
            let in_cap : k < cap = omega (arith, length-take cap (drop off src)) in
            sym (get_or-take cap k 0 (drop off src) in_cap ∙ get_or-drop off k 0 src)
            ∙ h k (omega arith)
            ∙ get_or-take cap k 0 (drop pos target) in_cap
            ∙ get_or-drop pos k 0 target;
      }

  abbrev pub IsMatch : ℕ → Best → Type 0
  IsMatch pos best = Matches src target best.moff pos best.msize

  longer-IsMatch :
      (off pos cap : ℕ)
      → length src < 2 ^ 32
      → off ≤ length src
      → pos ≤ length target
      → IsMatch pos (record { msize = u32 (extend_match src target off pos cap); moff = u32 off })
  longer-IsMatch off pos cap hs ho hp =
      let m : Matches src target off pos (extend_match src target off pos cap) =
        extend_match-Matches off pos cap ho hp in
      let off_fits : u32 off ≡ off = omega arith in
      let len_fits : u32 (extend_match src target off pos cap)
          ≡ extend_match src target off pos cap =
        omega (arith, m.src_fits) in
      rw (off_fits, len_fits) m

  -- A scan that does not panic, and gives a match.
  abbrev pub Scanned : ℕ → Result Stop Best → Type 0
  Scanned pos r = (best : Best) × (r ≡ ok best) × IsMatch pos best

  -- The scan keeps a match, or finds a longer one.
  pub scan_bucket-IsMatch :
      (val pos : ℕ) (es : List IndexEntry) (best : Best)
      → length src < 2 ^ 32
      → pos ≤ length target
      → All (λ e. e.offset ≤ length src) es
      → IsMatch pos best
      → Scanned pos (scan_bucket src target val pos es best)
  unfolding scan_bucket
  scan_bucket-IsMatch val pos [] best hs hp within m = (best, refl, m)
  scan_bucket-IsMatch val pos (entry ∷ es) best hs hp (inside, within) m =
      let cap : ℕ = min (length src - entry.offset) (length target - pos) in
      let len : ℕ = extend_match src target entry.offset pos cap in
      let longer : Best = record { msize = u32 len; moff = u32 entry.offset } in
      let found : IsMatch pos longer = longer-IsMatch entry.offset pos cap hs inside hp in
      let skip : Scanned pos (scan_bucket src target val pos es best) =
        scan_bucket-IsMatch val pos es best hs hp within m in
      if_elim (Scanned pos) (not (entry.hash == val)) (λ _. skip)
        (λ _.
          if_elim (Scanned pos) (ltb (length src) entry.offset)
            (λ outside. absurd (omega (arith, inside, ltb→lt (length src) entry.offset outside)))
            (λ _.
              if_elim (Scanned pos) (leb cap best.msize) (λ _. (best, refl, m))
                (λ _.
                  if_elim (Scanned pos) (ltb best.msize len)
                    (λ _.
                      if_elim (Scanned pos) (leb 4096 (u32 len)) (λ _. (longer, refl, found))
                        (λ _. scan_bucket-IsMatch val pos es longer hs hp within found))
                    (λ _. skip))))

module _ (src target : Bytes) where
  back_extend_agrees :
      (left off pos cnt : ℕ)
      → ((k : ℕ) → k < cnt → get_or src (off - 1 - k) 0 ≡ get_or target (pos - 1 - k) 0)
      → (back_extend src target left off pos cnt ≤ left + cnt)
        × ((k : ℕ)
            → k < back_extend src target left off pos cnt
            → get_or src (off - 1 - k) 0 ≡ get_or target (pos - 1 - k) 0)
  unfolding back_extend
  back_extend_agrees zero off pos cnt h = (omega arith, h)
  back_extend_agrees (suc left) off pos cnt h =
      let here : ℕ → Bool = λ k. get_or src (off - 1 - k) 0 == get_or target (pos - 1 - k) 0 in
      if_elim
        (λ b.
          (b ≤ suc left + cnt)
          × ((k : ℕ) → k < b → get_or src (off - 1 - k) 0 ≡ get_or target (pos - 1 - k) 0))
        (here cnt)
        (λ same.
          let (le, all) = back_extend_agrees left off pos (cnt + 1) (λ k hk. elim (dec_lt k cnt) [
            | yes lt ↦ h k lt
            | no ge ↦ let last : k ≡ cnt = omega arith in rw last ((==_iff _ _).0 same)
          ]) in
          (omega arith, all))
        (λ differ. (omega arith, h))

  -- A match grows backwards over bytes that agree.
  pub Matches-back :
      {off pos n : ℕ} (b : ℕ)
      → b ≤ off
      → b ≤ pos
      → ((k : ℕ) → k < b → get_or src (off - 1 - k) 0 ≡ get_or target (pos - 1 - k) 0)
      → Matches src target off pos n
      → Matches src target (off - b) (pos - b) (n + b)
  Matches-back {off} {pos} {n} b ho hp back m = record {
    src_fits = omega (arith, m.src_fits);
    target_fits = omega (arith, m.target_fits);
    agrees = λ k hk. elim (dec_lt k b) [
      | yes lt ↦
          ap (λ j. get_or src j 0) {x = off - b + k} {y = off - 1 - (b - 1 - k)} (omega arith)
          ∙ back (b - 1 - k) (omega arith)
          ∙ ap (λ j. get_or target j 0) {x = pos - 1 - (b - 1 - k)} {y = pos - b + k} (omega arith)
      | no ge ↦
          ap (λ j. get_or src j 0) {x = off - b + k} {y = off + (k - b)} (omega arith)
          ∙ m.agrees (k - b) (omega arith)
          ∙ ap (λ j. get_or target j 0) {x = pos + (k - b)} {y = pos - b + k} (omega arith)
    ];
  }

  pub back_extend-Matches :
      {off pos n : ℕ} (left : ℕ)
      → left ≤ off
      → left ≤ pos
      → Matches src target off pos n
      → Matches src target
          (off - back_extend src target left off pos 0)
          (pos - back_extend src target left off pos 0)
          (n + back_extend src target left off pos 0)
  back_extend-Matches {off} {pos} left ho hp m =
      let (le, all) = back_extend_agrees left off pos 0 (λ k h. absurd (omega arith)) in
      Matches-back (back_extend src target left off pos 0) (omega arith) (omega arith) all m

  pub back_extend-le : (left off pos : ℕ) → back_extend src target left off pos 0 ≤ left
  back_extend-le left off pos =
      omega (arith, (back_extend_agrees left off pos 0 (λ k h. absurd (omega arith))).0)

  -- A match is a copy: any part of it at its start or behind its start.
  pub Matches-slice :
      {off pos n : ℕ} (k : ℕ)
      → k ≤ n
      → Matches src target off pos n
      → take k (drop off src) ≡ take k (drop pos target)
  Matches-slice {off} {pos} {n} k h m =
      take-eq k 0 (drop off src) (drop pos target) (omega (arith, length-drop off src, m.src_fits))
        (omega (arith, length-drop pos target, m.target_fits))
        (λ j hj.
          get_or-drop off j 0 src ∙ m.agrees j (omega arith) ∙ sym (get_or-drop pos j 0 target))

  pub Matches-rest :
      {off pos n : ℕ} (k : ℕ)
      → k ≤ n
      → Matches src target off pos n
      → Matches src target (off + k) (pos + k) (n - k)
  Matches-rest {off} {pos} {n} k h m = record {
    src_fits = omega (arith, m.src_fits);
    target_fits = omega (arith, m.target_fits);
    agrees = λ j hj.
        ap (λ i. get_or src i 0) {x = off + k + j} {y = off + (k + j)} (omega arith)
        ∙ m.agrees (k + j) (omega arith)
        ∙ ap (λ i. get_or target i 0) {x = pos + (k + j)} {y = pos + k + j} (omega arith);
  }
