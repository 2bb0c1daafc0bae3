-- ===== src/Time/Clip/Entry.antt =====
-- One round of `clipDateRanges`: what it does to the instants that the table covers.
use aleph_indexer_framework.Prelude.{
  ℕ, ◌≡◌, ◌≢◌, ◌<◌, refl, ap, true, false, not, ◌&&◌, List, [], ◌∷◌, inl, inr, arith, All,
  Bool-cases,
}
use aleph_indexer_framework.Time.Range.{DateRange, holds, covers}
use aleph_indexer_framework.Time.Clip.{
  Table, range_id, delete, assign_range, clip_entry, left_range, right_range, clips_middle,
  clips_left, clips_right, clips_whole,
}
use aleph_indexer_framework.Time.Clip.Table.{IsStamped}

-- What a round does: nothing, or it deletes the range and assigns what is left of it.
abbrev pub ClipStep : DateRange → DateRange → List DateRange → Type 0
ClipStep c r parts =
    All IsStamped parts
    × All (λ p. p ≢ r) parts
    × ((t : ℕ) → covers parts t ≡ (holds t r && not (holds t c)))

abbrev pub assign_all : List DateRange → Table → Table
assign_all [] m = m
assign_all (p ∷ ps) m = assign_range p (assign_all ps m)

pub data ClipView (c r : DateRange) (m m' : Table) : Type 0 where
  untouched : m' ≡ m → ((t : ℕ) → (holds t r && holds t c) ≡ false) → ClipView c r m m'
  parts :
      (ps : List DateRange)
      → ClipStep c r ps
      → m' ≡ delete (range_id r) (assign_all ps m)
      → ClipView c r m m'

ne_start : (a b : DateRange) → a.start_date < b.start_date → b ≢ a
ne_start a b h e = omega (arith, ap (λ (r : DateRange). r.start_date) e)

ne_end : (a b : DateRange) → a.end_date < b.end_date → a ≢ b
ne_end a b h e = omega (arith, ap (λ (r : DateRange). r.end_date) e)

right-step :
    (c r : DateRange) → IsStamped r → clips_left c r ≡ true → ClipStep c r (right_range c r ∷ [])
right-step c r h e =
    ((ground arith, tt), (ne_start r (right_range c r) (ground arith), tt), λ t. ground arith)

left-step :
    (c r : DateRange) → IsStamped r → clips_right c r ≡ true → ClipStep c r (left_range c r ∷ [])
left-step c r h e =
    ((ground arith, tt), (ne_end (left_range c r) r (ground arith), tt), λ t. ground arith)

middle-step :
    (c r : DateRange)
    → IsStamped r
    → clips_middle c r ≡ true
    → ClipStep c r (right_range c r ∷ left_range c r ∷ [])
middle-step c r h e = (
  (ground arith, (ground arith, tt)),
  (ne_start r (right_range c r) (ground arith), (ne_end (left_range c r) r (ground arith), tt)),
  λ t. ground arith,
)

-- A round of the loop leaves a range alone that shares no instant with the clip range, and replaces
-- any other by parts that cover what the clip range does not.
pub clip_entry_view :
    (c r : DateRange) (m : Table) → IsStamped r → ClipView c r m (clip_entry c (range_id r) r m)
unfolding clip_entry
clip_entry_view c r m h = elim (Bool-cases (clips_middle c r)) [
  | inl e ↦ rw e (parts (right_range c r ∷ left_range c r ∷ []) (middle-step c r h e) refl)
  | inr m0 ↦ elim (Bool-cases (clips_left c r)) [
    | inl e ↦ rw (m0, e) (parts (right_range c r ∷ []) (right-step c r h e) refl)
    | inr m1 ↦ elim (Bool-cases (clips_right c r)) [
      | inl e ↦ rw (m0, m1, e) (parts (left_range c r ∷ []) (left-step c r h e) refl)
      | inr m2 ↦ elim (Bool-cases (clips_whole c r)) [
        | inl e ↦ rw (m0, m1, m2, e) (parts [] (tt, tt, λ t. ground arith) refl)
        | inr m3 ↦ rw (m0, m1, m2, m3) (untouched refl (λ t. ground arith))
      ]
    ]
  ]
]
