-- ===== src/Infra/SandboxPaths/Laws.antt =====
-- What the media-path check guarantees, what it misses, and that the walk to an ancestor ends.
use mylobsterpp.Prelude.{
  ℕ, zero, suc, String, ◌+◌, ◌≤◌, ◌<◌, ◌≡◌, ◌≢◌, refl, ap, sym, ◌∙◌, ◌⊎◌, inl, inr, ◌↔◌, true,
  false, Option, none, some, [], ◌∷◌, ◌++◌, arith, Bool-cases, length, has_byte, Text, starts_with,
  starts_with-append, starts_with→append, text_eq_iff, length-append, Result, ok, >>=-eq-ok,
}
use mylobsterpp.Infra.FsPath.{
  slash, filename, only_slashes, dir_part, strip_slashes, ends_with_slash, parent_path, join, Fs,
}
use mylobsterpp.Infra.PathGuard.{with_slash, is_contained_in}
use mylobsterpp.Infra.SandboxPaths.{
  normalize_at_prefix, resolved_or, resolve_allowed_tmp_media_path, walk_up, rejoin,
  canonicalize_bind_mount_source,
}

resolved_or-eq-ok : (m : String) (o : Option Text) {p : Text} → resolved_or m o ≡ ok p → o ≡ some p
resolved_or-eq-ok m none h = cc
resolved_or-eq-ok m (some p) h = cc

-- A media path is returned exactly if the base and the path resolve, it is what the path resolves to,
-- and its text begins with that of the resolved base.
pub resolve_allowed_tmp_media_path_iff :
    (fs : Fs) (base relative c : Text)
    → (resolve_allowed_tmp_media_path fs base relative ≡ ok c) ↔ (
        (b t : Text) × (fs.canonical base ≡ some b)
        × (fs.weakly_canonical (join base (normalize_at_prefix relative)) ≡ some c)
        × (c ≡ b ++ t))
unfolding resolve_allowed_tmp_media_path
resolve_allowed_tmp_media_path_iff fs base relative c = (
  λ h.
      let (b, eb, h₁) =
        >>=-eq-ok (resolved_or "Failed to canonicalize base path" (fs.canonical base)) _ h in
      let (f, ef, h₂) =
        >>=-eq-ok
          (resolved_or "Failed to resolve path"
            (fs.weakly_canonical (join base (normalize_at_prefix relative))))
          _ h₁ in
      let same : f ≡ c = ground arith in
      let (t, et) = starts_with→append f b (ground arith) in
      (
        b,
        t,
        resolved_or-eq-ok "Failed to canonicalize base path" _ eb,
        resolved_or-eq-ok "Failed to resolve path" _ ef ∙ ap some same,
        sym same ∙ et,
      ),
  λ w.
      let (b, t, eb, ef, e) = w in
      rw (eb, ef, ap (λ x. starts_with x b) e, starts_with-append b t) refl,
)

with_slash-sibling :
    (r t : Text) (x : ℕ) → x ≢ slash → starts_with (r ++ x ∷ t) (r ++ slash ∷ []) ≡ false
unfolding starts_with
with_slash-sibling [] t x h = ground arith
with_slash-sibling (c ∷ r) t x h = ground (arith, with_slash-sibling r t x h)

not-contained-sibling :
    (r t : Text) (x : ℕ)
    → x ≢ slash
    → ends_with_slash r ≡ false
    → is_contained_in (r ++ x ∷ t) r ≡ false
unfolding is_contained_in with_slash
not-contained-sibling r t x h e =
    rw (e, with_slash-sibling r t x h)
      (ground (
        arith,
        text_eq_iff (r ++ x ∷ t) r,
        λ (same : r ++ x ∷ t ≡ r). ap length same,
        length-append {0} r (x ∷ t),
      ))

-- A path that resolves beside the media folder, to a name that only begins like it, is returned, though
-- it is not contained in the folder.
pub resolve_allowed_tmp_media_path_sibling :
    (fs : Fs) (base relative r t : Text) (x : ℕ)
    → x ≢ slash
    → ends_with_slash r ≡ false
    → fs.canonical base ≡ some r
    → fs.weakly_canonical (join base (normalize_at_prefix relative)) ≡ some (r ++ x ∷ t)
    → (resolve_allowed_tmp_media_path fs base relative ≡ ok (r ++ x ∷ t))
      × (is_contained_in (r ++ x ∷ t) r ≡ false)
resolve_allowed_tmp_media_path_sibling fs base relative r t x h e er ef = (
  (resolve_allowed_tmp_media_path_iff fs base relative (r ++ x ∷ t)).1 (r, x ∷ t, er, ef, refl),
  not-contained-sibling r t x h e,
)

length-strip-le : (p : Text) → length (strip_slashes p) ≤ length p
unfolding strip_slashes
length-strip-le [] = omega arith
length-strip-le (c ∷ p) = ground (arith, length-strip-le p)

length-dir_part-le : (p : Text) → length (dir_part p) ≤ length p
unfolding dir_part
length-dir_part-le [] = omega arith
length-dir_part-le (c ∷ p) = ground (arith, length-dir_part-le p)

dir_part-nil : (p : Text) → dir_part p ≡ [] → has_byte slash p ≡ false
unfolding dir_part has_byte
dir_part-nil [] h = refl
dir_part-nil (c ∷ p) h = ground arith

length-strip-cons :
    (c : ℕ) (p : Text) → length (strip_slashes (c ∷ p)) ≤ suc (length (strip_slashes p))
unfolding strip_slashes
length-strip-cons c p = ground arith

-- The part up to the last separator is empty, or loses at least that separator.
strip-dir_part-lt :
    (p : Text) → (dir_part p ≡ []) ⊎ (length (strip_slashes (dir_part p)) < length (dir_part p))
unfolding dir_part strip_slashes
strip-dir_part-lt [] = inl refl
strip-dir_part-lt (c ∷ p) = elim (Bool-cases (has_byte slash (c ∷ p))) [
  | inr plain ↦ inl (rw plain)
  | inl sep ↦ inr (
      rw sep (elim (strip-dir_part-lt p) [
        | inr shorter ↦ omega (arith, length-strip-cons c (dir_part p))
        | inl empty ↦
            let at_end : c ≡ slash = ground (arith, dir_part-nil p empty) in
            rw (empty, at_end) (omega arith)
      ]))
]

length-parent_path-lt : (p : Text) → only_slashes p ≡ false → length (parent_path p) < length p
unfolding parent_path
length-parent_path-lt [] h = cc
length-parent_path-lt (c ∷ []) h = ground (arith)
length-parent_path-lt (c ∷ d ∷ p) h =
    ground (arith, strip-dir_part-lt (c ∷ d ∷ p), length-dir_part-le (c ∷ d ∷ p))

-- The file system has a root.
abbrev pub HasRoot : Fs → Type 0
HasRoot fs = (p : Text) → p ≢ [] → only_slashes p ≡ true → fs.exists p ≡ true

missing-not-root :
    (fs : Fs) (p : Text) → p ≢ [] → HasRoot fs → fs.exists p ≡ false → only_slashes p ≡ false
missing-not-root fs p nonempty root gone = elim (Bool-cases (only_slashes p)) [
  | inl slashes ↦ cc (root p nonempty slashes)
  | inr other ↦ other
]

walk_up_total :
    (fuel : ℕ) (fs : Fs) (current leaf : Text)
    → HasRoot fs
    → length current < fuel
    → (found : Text × Text) × (walk_up fuel fs current leaf ≡ some found)
unfolding walk_up
walk_up_total zero fs current leaf root h = absurd (omega arith)
walk_up_total (suc fuel) fs [] leaf root h = (([], leaf), refl)
walk_up_total (suc fuel) fs (c ∷ current) leaf root h =
    elim (Bool-cases (fs.exists (c ∷ current))) [
      | inl here ↦ ((c ∷ current, leaf), rw here)
      | inr gone ↦
          let not_root = missing-not-root fs (c ∷ current) (cc) root gone in
          rw gone (
            walk_up_total fuel fs (parent_path (c ∷ current)) (join (filename (c ∷ current)) leaf)
              root (omega (arith, length-parent_path-lt (c ∷ current) not_root)))
    ]

-- On a file system with a root, the search for an existing ancestor ends for every path.
pub canonicalize_bind_mount_source_total :
    (fs : Fs) (path : Text)
    → HasRoot fs
    → (r : Result Text) × (canonicalize_bind_mount_source fs path ≡ some r)
unfolding canonicalize_bind_mount_source
canonicalize_bind_mount_source_total fs path root = elim (Bool-cases (fs.exists path)) [
  | inl here ↦ (resolved_or "Failed to canonicalize path" (fs.canonical path), rw here)
  | inr gone ↦
      let (found, e) = walk_up_total (length path + 1) fs path [] root (omega arith) in
      (rejoin fs found, rw (gone, e))
]
