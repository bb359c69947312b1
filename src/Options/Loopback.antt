-- ===== src/Options/Loopback.antt =====
-- What `loopback_host` and `valid_workbench_origin` of src/context_hmi/options_validation.cpp admit.
use ctm.Prelude.{
  ℕ, ◌≡◌, ap, ◌∙◌, ◌⊎◌, inl, inr, true, [], ◌∷◌, ◌++◌, Bytes, codes, bytes_eq, bytes_eq_iff, some,
  Option-cases, Result-cases, arith, any_of, ok,
}
use ctm.Options.{digits, bounded_integer}
use ctm.Options.Validate.{loopback_host, after, split_last, valid_workbench_origin}
use ctm.Options.Ranges.{Between}

-- The names of the machine itself.
abbrev pub Loopback : Bytes → Type 0
Loopback host = (host ≡ codes "127.0.0.1") ⊎ (host ≡ codes "localhost") ⊎ (host ≡ codes "::1")

-- `http://`, such a name, a colon and the decimal digits of a port.
abbrev pub LoopbackOrigin : Bytes → Type 0
LoopbackOrigin origin =
    (host port : Bytes) × (n : ℕ) × (origin ≡ codes "http://" ++ host ++ b':' ∷ port)
    × Loopback host
    × (digits port 0 ≡ some n)
    × Between 1 65535 n

named :
    (host a b c : Bytes)
    → any_of (bytes_eq host) (a ∷ b ∷ c ∷ []) ≡ true
    → (host ≡ a) ⊎ (host ≡ b) ⊎ (host ≡ c)
unfolding any_of
named host a b c h =
    ground (arith, h, bytes_eq_iff host a, bytes_eq_iff host b, bytes_eq_iff host c)

pub loopback_host-Loopback : (host : Bytes) → loopback_host host ≡ true → Loopback host
unfolding loopback_host
loopback_host-Loopback host h = named host (codes "127.0.0.1") (codes "localhost") (codes "::1") h

after-append :
    (prefix text : Bytes) {rest : Bytes} → after prefix text ≡ some rest → text ≡ prefix ++ rest
unfolding after
after-append [] text h = ground (arith, h)
after-append (c ∷ prefix) [] h = absurd (ground arith)
after-append (c ∷ prefix) (d ∷ text) {rest} h =
    ground (arith, h, after-append prefix text {rest = rest})

split_last-append :
    (text : Bytes) (parts : Bytes × Bytes)
    → split_last text ≡ some parts
    → text ≡ parts.0 ++ b':' ∷ parts.1
unfolding split_last
split_last-append [] parts h = absurd (ground arith)
split_last-append (c ∷ text) parts h = elim (Option-cases (split_last text)) [
  | inl none_there ↦ ground (arith, none_there, h)
  | inr (found, there) ↦ ground (arith, there, h, split_last-append text found there)
]

bounded_integer-digits :
    (text : Bytes) (minimum maximum : ℕ) {n : ℕ}
    → bounded_integer text minimum maximum ≡ ok n
    → (digits text 0 ≡ some n) × Between minimum maximum n
unfolding bounded_integer
bounded_integer-digits [] minimum maximum h = absurd (ground arith)
bounded_integer-digits (c ∷ text) minimum maximum h = elim (Option-cases (digits (c ∷ text) 0)) [
  | inl no_number ↦ absurd (ground (arith, no_number, h))
  | inr (n, read) ↦ ground (arith, read, h)
]

pub valid_workbench_origin-Loopback :
    (origin : Bytes) → valid_workbench_origin origin ≡ true → LoopbackOrigin origin
unfolding valid_workbench_origin
valid_workbench_origin-Loopback origin h = elim (Option-cases (after (codes "http://") origin)) [
  | inl other ↦ absurd (ground (arith, other, h))
  | inr (authority, there) ↦ elim (Option-cases (split_last authority)) [
    | inl no_colon ↦ absurd (ground (arith, there, no_colon, h))
    | inr (parts, split) ↦ elim (Result-cases (bounded_integer parts.1 1 65535)) [
      | inl (e, failed) ↦ absurd (ground (arith, there, split, failed, h))
      | inr (n, read) ↦
          let (number, range) = bounded_integer-digits parts.1 1 65535 read in
          (
            parts.0,
            parts.1,
            n,
            after-append (codes "http://") origin there
                ∙ ap (◌++◌ (codes "http://")) (split_last-append authority parts split),
            loopback_host-Loopback parts.0 (ground (arith, there, split, h)),
            number,
            range,
          )
    ]
  ]
]
