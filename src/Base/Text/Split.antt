-- ===== src/Base/Text/Split.antt =====
-- Splitting a text that comes in two parts.
use Prim.Native.Nat.{ℕ, zero, suc, ◌-◌, ◌≤◌, ◌<◌}
use mathlib.Core.Bool.{true, false}
use mathlib.Core.List.{List, [], ◌∷◌, ◌++◌, append_assoc, append-nil}
use mathlib.Core.Logic.{◌≢◌, inl, inr}
use mathlib.Core.Path.{◌≡◌, refl, sym, ap, ◌∙◌}
use native.Mathlib.Omega.{arith}
use os_serverlist_sync.Base.Tests.{◌==◌, Bool-cases}
use os_serverlist_sync.Base.Lists.{length, All}
use os_serverlist_sync.Base.Bytes.{Bytes}
use os_serverlist_sync.Base.Text.{starts_with, split_loop, split}

-- All pieces but the last, and the last.
abbrev pub but_last : List Bytes → List Bytes
but_last [] = []
but_last (p ∷ []) = []
but_last (p ∷ q ∷ ps) = p ∷ but_last (q ∷ ps)

abbrev pub last_piece : List Bytes → Bytes
last_piece [] = []
last_piece (p ∷ []) = p
last_piece (p ∷ q ∷ ps) = last_piece (q ∷ ps)

-- The pieces of the rest, put behind those of a text whose last piece goes on.
abbrev go_on : (Bytes → List Bytes) → List Bytes → List Bytes
go_on f [] = []
go_on f (p ∷ []) = f p
go_on f (p ∷ q ∷ ps) = p ∷ go_on f (q ∷ ps)

starts_with-append : (sep s t : Bytes) → starts_with sep s ≡ true → starts_with sep (s ++ t) ≡ true
unfolding starts_with
starts_with-append [] s t h = refl
starts_with-append (a ∷ sep) [] t h = cc
starts_with-append (a ∷ sep) (c ∷ s) t h = ground (arith, starts_with-append sep s t)

starts_with-short :
    (sep s t : Bytes)
    → starts_with sep s ≡ false
    → starts_with sep (s ++ t) ≡ true
    → length s < length sep
unfolding starts_with
starts_with-short [] s t h g = cc
starts_with-short (a ∷ sep) [] t h g = omega arith
starts_with-short (a ∷ sep) (c ∷ s) t h g = ground (arith, starts_with-short sep s t)

starts_with-length : (sep s : Bytes) → starts_with sep s ≡ true → length sep ≤ length s
unfolding starts_with
starts_with-length [] s h = omega arith
starts_with-length (a ∷ sep) [] h = cc
starts_with-length (a ∷ sep) (c ∷ s) h = ground (arith, starts_with-length sep s)

-- A text that is shorter than the separator is one piece.
split_loop-short :
    (sep piece s : Bytes) → length s < length sep → split_loop sep zero piece s ≡ (piece ++ s) ∷ []
unfolding split_loop
split_loop-short sep piece [] h = ap (λ p. p ∷ []) (sym (append-nil piece))
split_loop-short sep piece (c ∷ s) h = elim (Bool-cases (starts_with sep (c ∷ s))) [
  | inl e ↦ absurd (omega (arith, starts_with-length sep (c ∷ s) e))
  | inr e ↦ rw e (
      split_loop-short sep (piece ++ c ∷ []) s (omega arith)
      ∙ ap (λ p. p ∷ []) (append_assoc piece (c ∷ []) s))
]

split_loop-ne_nil :
    (sep : Bytes) (k : ℕ) (piece s : Bytes)
    → (q : Bytes) × (qs : List Bytes) × (split_loop sep k piece s ≡ q ∷ qs)
unfolding split_loop
split_loop-ne_nil sep k piece [] = (piece, [], refl)
split_loop-ne_nil sep (suc k) piece (c ∷ s) = split_loop-ne_nil sep k piece s
split_loop-ne_nil sep zero piece (c ∷ s) = elim (Bool-cases (starts_with sep (c ∷ s))) [
  | inl e ↦ (piece, split_loop sep (length sep - 1) [] s, rw e)
  | inr e ↦ rw e (split_loop-ne_nil sep zero (piece ++ c ∷ []) s)
]

go_on-cons :
    (f : Bytes → List Bytes) (p sep : Bytes) (k : ℕ) (piece s : Bytes)
    → go_on f (p ∷ split_loop sep k piece s) ≡ p ∷ go_on f (split_loop sep k piece s)
go_on-cons f p sep k piece s = let (q, qs, e) = split_loop-ne_nil sep k piece s in rw e

module _ (sep t : Bytes) where
  abbrev rescan : Bytes → List Bytes
  rescan p = split_loop sep zero [] (p ++ t)

  assoc :
      (piece : Bytes) (c : ℕ) (s : Bytes) → piece ++ (c ∷ (s ++ t)) ≡ ((piece ++ c ∷ []) ++ s) ++ t
  assoc piece c s = sym (append_assoc (piece ++ c ∷ []) s t ∙ append_assoc piece (c ∷ []) (s ++ t))

  -- `clean`: no separator starts in `piece`.
  split_loop-append :
      (s : Bytes) (k : ℕ) (piece : Bytes)
      → k ≤ length s
      → (k ≢ 0 → piece ≡ [])
      → split_loop sep zero [] (piece ++ (s ++ t)) ≡ split_loop sep zero piece (s ++ t)
      → split_loop sep k piece (s ++ t) ≡ go_on rescan (split_loop sep k piece s)
  unfolding split_loop
  split_loop-append [] (suc k) piece h e clean = absurd (omega arith)
  split_loop-append [] zero piece h e clean = sym clean
  split_loop-append (c ∷ s) (suc k) piece h e clean =
      rw (e (omega arith)) (split_loop-append s k [] (omega arith) (λ _. refl) refl)
  split_loop-append (c ∷ s) zero piece h e clean = elim (Bool-cases (starts_with sep (c ∷ s))) [
    | inl here ↦
        rw
          (
            here,
            starts_with-append sep (c ∷ s) t here,
            go_on-cons rescan piece sep (length sep - 1) [] s,
          )
          (ap (◌∷◌ piece) (
            split_loop-append s (length sep - 1) []
              (omega (arith, starts_with-length sep (c ∷ s) here)) (λ _. refl) refl))
    | inr no_sep ↦ elim (Bool-cases (starts_with sep (c ∷ (s ++ t)))) [
      | inl across ↦
          let short = starts_with-short sep (c ∷ s) t no_sep across in
          let whole = split_loop-short sep (piece ++ c ∷ []) s (omega arith) in
          rw (no_sep, whole) (sym clean ∙ ap (split_loop sep zero []) (assoc piece c s))
      | inr none ↦ rw no_sep (
          rw none (
            split_loop-append s zero (piece ++ c ∷ []) (omega arith) (λ n. absurd (n refl))
              (ap (split_loop sep zero []) (append_assoc piece (c ∷ []) (s ++ t))
                ∙ (rw none at clean))))
    ]
  ]

go_on-parts :
    (f : Bytes → List Bytes) (q : Bytes) (qs : List Bytes)
    → go_on f (q ∷ qs) ≡ but_last (q ∷ qs) ++ f (last_piece (q ∷ qs))
go_on-parts f q [] = refl
go_on-parts f q (r ∷ qs) = ap (◌∷◌ q) (go_on-parts f r qs)

-- A text that comes in two parts: the last piece of the first part goes on with the second.
pub split-append :
    (s t sep : Bytes)
    → split (s ++ t) sep ≡ but_last (split s sep) ++ split (last_piece (split s sep) ++ t) sep
unfolding split
split-append s t sep =
    let (q, qs, e) = split_loop-ne_nil sep zero [] s in
    split_loop-append sep t s zero [] (omega arith) (λ _. refl) refl
    ∙ rw e (go_on-parts (rescan sep t) q qs)

pub split-ne_nil : (s sep : Bytes) → (q : Bytes) × (qs : List Bytes) × (split s sep ≡ q ∷ qs)
unfolding split
split-ne_nil s sep = split_loop-ne_nil sep zero [] s

pub but_last-append :
    (ps qs : List Bytes) (q : Bytes) → but_last (ps ++ (q ∷ qs)) ≡ ps ++ but_last (q ∷ qs)
but_last-append [] qs q = refl
but_last-append (p ∷ []) qs q = refl
but_last-append (p ∷ r ∷ ps) qs q = ap (◌∷◌ p) (but_last-append (r ∷ ps) qs q)

pub last_piece-append :
    (ps qs : List Bytes) (q : Bytes) → last_piece (ps ++ (q ∷ qs)) ≡ last_piece (q ∷ qs)
last_piece-append [] qs q = refl
last_piece-append (p ∷ []) qs q = refl
last_piece-append (p ∷ r ∷ ps) qs q = last_piece-append (r ∷ ps) qs q

-- Bytes that cannot start a separator belong to the current piece.
split_loop-plain :
    (a : ℕ) (sep piece x s : Bytes)
    → All (λ c. c ≢ a) x
    → split_loop (a ∷ sep) zero piece (x ++ s) ≡ split_loop (a ∷ sep) zero (piece ++ x) s
unfolding split_loop starts_with
split_loop-plain a sep piece [] s h =
    ap (λ p. split_loop (a ∷ sep) zero p s) (sym (append-nil piece))
split_loop-plain a sep piece (c ∷ x) s h =
    let other : (a == c) ≡ false = ground (arith, h.0) in
    rw other (
      split_loop-plain a sep (piece ++ c ∷ []) x s h.1
      ∙ ap (λ p. split_loop (a ∷ sep) zero p s) (append_assoc piece (c ∷ []) x))

starts_with_self : (sep s : Bytes) → starts_with sep (sep ++ s) ≡ true
unfolding starts_with
starts_with_self [] s = refl
starts_with_self (a ∷ sep) s =
    let same : (a == a) ≡ true = ground arith in rw same (starts_with_self sep s)

split_loop-pass :
    (sep x s piece : Bytes) → split_loop sep (length x) piece (x ++ s) ≡ split_loop sep zero piece s
unfolding split_loop
split_loop-pass sep [] s piece = refl
split_loop-pass sep (c ∷ x) s piece = split_loop-pass sep x s piece

split_loop-here :
    (a : ℕ) (sep x s : Bytes)
    → split_loop (a ∷ sep) zero x ((a ∷ sep) ++ s) ≡ x ∷ split_loop (a ∷ sep) zero [] s
unfolding split_loop
split_loop-here a sep x s =
    let n : suc (length sep) - 1 ≡ length sep = omega arith in
    rw (starts_with_self (a ∷ sep) s, n) (ap (◌∷◌ x) (split_loop-pass (a ∷ sep) sep s []))

pub split_plain : (a : ℕ) (sep x : Bytes) → All (λ c. c ≢ a) x → split x (a ∷ sep) ≡ x ∷ []
unfolding split
split_plain a sep x h =
    ap (split_loop (a ∷ sep) zero []) (sym (append-nil x))
    ∙ split_loop-plain a sep [] x [] h
    ∙ unfold split_loop in refl

-- A first piece that holds no byte with which a separator starts.
pub split-cut :
    (a : ℕ) (sep x s : Bytes)
    → All (λ c. c ≢ a) x
    → split (x ++ ((a ∷ sep) ++ s)) (a ∷ sep) ≡ x ∷ split s (a ∷ sep)
unfolding split
split-cut a sep x s h = split_loop-plain a sep [] x ((a ∷ sep) ++ s) h ∙ split_loop-here a sep x s

pub split_rest :
    (a : ℕ) (sep x s : Bytes)
    → All (λ c. c ≢ a) x
    → split_loop (a ∷ sep) zero x s ≡ (x ++ s) ∷ []
    → split (x ++ s) (a ∷ sep) ≡ (x ++ s) ∷ []
unfolding split
split_rest a sep x s h e = split_loop-plain a sep [] x s h ∙ e
