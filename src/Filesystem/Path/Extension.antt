-- ===== src/Filesystem/Path/Extension.antt =====
-- What the extension of a path is.
use just_library.Base.{
  ℕ, zero, suc, ◌≡◌, refl, sym, ap, subst, ◌∙◌, false, inl, inr, [], ◌∷◌, ◌++◌, length, drop, take,
  Option, none, some, ◌↔◌, List-cases, arith,
}
use just_library.Base.Text.{Name}
use just_library.Filesystem.Path.{
  dot, last_index, path_filename, path_extension, extension_of, is_empty,
}
use just_library.Filesystem.Path.Split.{Lacks}
use just_library.Filesystem.Path.Names.{last_index-append, last_index-parts, drop-append}

-- The name goes on with `ext` behind its last dot, and does not start with that dot.
pub record Extension (name ext : Name) : Type 0 where
  pub stem : Name
  pub parts : name ≡ stem ++ dot ∷ ext
  pub stem_nonempty : is_empty stem ≡ false
  pub ext_nonempty : is_empty ext ≡ false
  pub last : Lacks dot ext

extension_of-Extension :
    (name ext : Name) (found : Option ℕ)
    → last_index dot name ≡ found
    → extension_of name found ≡ some ext
    → Extension name ext
unfolding extension_of
extension_of-Extension name ext none f e = absurd (cc e)
extension_of-Extension name ext (some zero) f e = absurd (cc e)
extension_of-Extension name ext (some (suc i)) f e =
    let (p, q, r) = last_index-parts dot name (suc i) f in
    elim (List-cases (drop (suc (suc i)) name)) [
      | inl d ↦ let g : none ≡ some ext = rw (extension_of, d) at e in absurd (cc g)
      | inr (c, cs, d) ↦
          let g : some (c ∷ cs) ≡ some ext = rw (extension_of, d) at e in
          let h : c ∷ cs ≡ ext = cc g in
          let k : drop (suc (suc i)) name ≡ ext = d ∙ h in
          record {
            stem = take (suc i) name;
            parts = p ∙ ap (λ t. take (suc i) name ++ dot ∷ t) k;
            stem_nonempty = nonempty (take (suc i) name) i r;
            ext_nonempty = ap is_empty (sym h);
            last = subst (Lacks dot) k q;
          }
    ]
  where
    nonempty : (xs : Name) (j : ℕ) → length xs ≡ suc j → is_empty xs ≡ false
    nonempty [] j l = absurd (omega arith)
    nonempty (x ∷ xs) j l = refl

Extension-extension_of :
    (name ext : Name) → Extension name ext → extension_of name (last_index dot name) ≡ some ext
unfolding extension_of
Extension-extension_of name ext x =
    subst (λ n. extension_of n (last_index dot n) ≡ some ext) (sym x.parts)
      (behind x.stem ext x.stem_nonempty x.ext_nonempty x.last)
  where
    behind :
        (stem ext : Name)
        → is_empty stem ≡ false
        → is_empty ext ≡ false
        → Lacks dot ext
        → extension_of (stem ++ dot ∷ ext) (last_index dot (stem ++ dot ∷ ext)) ≡ some ext
    behind [] ext s e h = absurd (cc s)
    behind (x ∷ xs) [] s e h = absurd (cc e)
    behind (x ∷ xs) (c ∷ cs) s e h =
        rw (last_index-append dot (x ∷ xs) (c ∷ cs) h, drop-append xs dot (c ∷ cs)) refl

-- `justPathExtension` returns exactly what stands behind the last dot of the filename, where that dot
-- is neither its first character nor its last.
pub path_extension_iff :
    (path ext : Name) → (path_extension path ≡ some ext) ↔ Extension (path_filename path) ext
unfolding path_extension
path_extension_iff path ext = (
  extension_of-Extension (path_filename path) ext (last_index dot (path_filename path)) refl,
  Extension-extension_of (path_filename path) ext,
)
