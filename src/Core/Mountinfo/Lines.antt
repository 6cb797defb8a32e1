-- ===== src/Core/Mountinfo/Lines.antt =====
-- crates/core/src/mountinfo.rs: a line of the kernel's is read as the mount that it describes.
use rclone_vfsmount_tray.Prelude.{
  ℕ, ◌≡◌, refl, ap, ◌∙◌, false, some, List, [], ◌∷◌, ◌++◌, arith, All, Text, lit, text_eq, has_char,
}
use rclone_vfsmount_tray.Core.Mountinfo.{split, after_dash, parse_fields, parse_line}
use rclone_vfsmount_tray.Core.Mountinfo.Escapes.{
  kernel_escape, unescape-kernel_escape, kernel_escape-no_space,
}

-- Fields with one space between them.
abbrev pub join_fields : List Text → Text
join_fields [] = []
join_fields (f ∷ []) = f
join_fields (f ∷ g ∷ fs) = f ++ b' ' ∷ join_fields (g ∷ fs)

abbrev pub NoSpace : Text → Type 0
NoSpace f = has_char b' ' f ≡ false

split-append : (f : Text) (s : Text) → NoSpace f → split b' ' (f ++ b' ' ∷ s) ≡ f ∷ split b' ' s
unfolding split
split-append [] s h = refl
split-append (c ∷ f) s h = ground (arith, split-append f s)

split_plain : (f : Text) → NoSpace f → split b' ' f ≡ f ∷ []
unfolding split
split_plain [] h = refl
split_plain (c ∷ f) h = ground (arith, split_plain f)

split-join_fields :
    (f : Text) (fs : List Text)
    → NoSpace f
    → All NoSpace fs
    → split b' ' (join_fields (f ∷ fs)) ≡ f ∷ fs
split-join_fields f [] h hs = split_plain f h
split-join_fields f (g ∷ fs) h hs =
    split-append f _ h ∙ ap (λ r. f ∷ r) (split-join_fields g fs hs.0 hs.1)

-- The fields of a mount behind its id, as the kernel writes them: the mount point, the type and the
-- source are escaped, and the optional fields end with a lone dash.
abbrev pub kernel_fields :
    Text → Text → Text → Text → Text → List Text → Text → Text → Text → List Text
kernel_fields parent device root point options optional fstype source super =
    parent
    ∷ device
    ∷ root
    ∷ kernel_escape point
    ∷ options
    ∷ (optional ++ lit "-" ∷ kernel_escape fstype ∷ kernel_escape source ∷ super ∷ [])

-- A line of mountinfo, proc(5).
abbrev pub kernel_line :
    Text → Text → Text → Text → Text → Text → List Text → Text → Text → Text → Text
kernel_line id parent device root point options optional fstype source super =
    join_fields (id ∷ kernel_fields parent device root point options optional fstype source super)

-- No field of these is the dash that ends the optional fields.
abbrev pub NoDash : Text → Type 0
NoDash f = text_eq f (lit "-") ≡ false

after_dash-append :
    (fs rest : List Text) → All NoDash fs → after_dash (fs ++ lit "-" ∷ rest) ≡ some rest
unfolding after_dash text_eq
after_dash-append [] rest h = refl
after_dash-append (f ∷ fs) rest h = ground (arith, after_dash-append fs rest h.1, h.0)

All-append : (fs gs : List Text) → All NoSpace fs → All NoSpace gs → All NoSpace (fs ++ gs)
All-append [] gs h k = k
All-append (f ∷ fs) gs h k = (h.0, All-append fs gs h.1 k)

parse_fields_lem :
    (first : Text × (Text × (Text × Text))) (p : ℕ) (point options : Text) (optional : List Text)
    (t : ℕ) (fstype source super : Text)
    → All NoDash (options ∷ optional)
    → parse_fields (
        first.0
        ∷ kernel_fields first.1.0 first.1.1.0 first.1.1.1
            (p ∷ point)
            options
            optional
            (t ∷ fstype)
            source
            super)
      ≡ some (record { mount_point = p ∷ point; source = source; fstype = t ∷ fstype })
unfolding parse_fields
parse_fields_lem first p point options optional t fstype source super d =
    rw (after_dash-append (options ∷ optional) _ d, parse_fields)
      (ground (
        arith,
        unescape-kernel_escape (p ∷ point),
        unescape-kernel_escape (t ∷ fstype),
        unescape-kernel_escape source,
      ))

-- The line of a mount, whatever its optional fields are, is read as that mount: its point, source
-- and type as they were before the kernel escaped them. The plain fields hold no space, the options
-- and the optional fields are no lone dash, and the point and the type are not empty.
pub parse_line-kernel_line :
    (id parent device root : Text) (p : ℕ) (point options : Text) (optional : List Text) (t : ℕ)
    (fstype source super : Text)
    → All NoSpace (id ∷ parent ∷ device ∷ root ∷ options ∷ super ∷ [])
    → All NoSpace optional
    → All NoDash (options ∷ optional)
    → parse_line
        (kernel_line id parent device root (p ∷ point) options optional (t ∷ fstype) source super)
      ≡ some (record { mount_point = p ∷ point; source = source; fstype = t ∷ fstype })
unfolding parse_line
parse_line-kernel_line id parent device root p point options optional t fstype source super h o d =
    let fields =
      kernel_fields parent device root (p ∷ point) options optional (t ∷ fstype) source super in
    let spaceless : All NoSpace fields = (
      h.1.0,
      (
        h.1.1.0,
        (
          h.1.1.1.0,
          (
            kernel_escape-no_space (p ∷ point),
            (
              h.1.1.1.1.0,
              All-append optional _ o (
                refl,
                (
                  kernel_escape-no_space (t ∷ fstype),
                  (kernel_escape-no_space source, (h.1.1.1.1.1.0, tt)),
                ),
              ),
            ),
          ),
        ),
      ),
    ) in
    ap parse_fields (split-join_fields id fields h.0 spaceless)
    ∙ parse_fields_lem (id, (parent, (device, root))) p point options optional t fstype source super
        d
