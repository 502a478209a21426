-- ===== src/Capture/Device.antt =====
-- crates/capture/src/dmabuf.rs: the render node of a device, and buffers made on it. GBM and the
-- directories are parameters: what they answer is in a `Machine`.
pub mod Nodes
use moreland_kde.Base.{
  ℕ, zero, suc, ◌+◌, ◌-◌, ◌*◌, ◌/◌, ◌%◌, ◌^◌, ◌≤◌, ◌<◌, min, max, bit_and, bit_or, ◌≡◌, refl, sym,
  ap, subst, ◌∙◌, ◌≢◌, ◌↔◌, ◌⊎◌, inl, inr, Bool, true, false, not, ◌&&◌, ◌||◌, Option, none, some,
  List, [], ◌∷◌, ◌++◌, map, arith, ltb, leb, ◌==◌, if◌then◌else◌, ltb→lt, lt→ltb, leb→le, le→leb,
  ==_iff, ==_refl, tests, Bool-cases, Option-cases, length, get_elem?, take, drop, replicate,
  keep_if, any, find_first, flatten, All, length-append, take-append-drop, length-take, length-drop,
  length-replicate, take_all, drop_all, All-append,
}
use moreland_kde.Base.Result.{Result, ok, err, ◌>>=◌, ◌>>◌, guard, >>=-eq-ok, guard_passed}
use moreland_kde.Base.Text.{
  Text, text, text_eq, text_eq_iff, text_eq_refl, is_whitespace, is_digit, is_upper, is_lower,
  is_ascii_alphanumeric, lower_char, to_ascii_lowercase, is_empty, starts_with, contains,
  strip_prefix, trim_start, trim_end, trim, push_front, starts_newline, lines, starts_word,
  split_whitespace, split_once, until, second_piece, parse_digits, parse_nonempty, parse_unsigned,
  u8_max, u16_max, u32_max,
}
use moreland_kde.Capture.Failure.{
  Failure, listing_failed, no_node_matches, no_render_node, node_not_opened, no_gbm_device,
  unknown_fourcc, allocation_refused, plane_not_exported,
}

-- An entry of `/dev/dri`: its name, and its `rdev` if its metadata can be read.
pub record Node : Type 0 where
  pub name : Text
  pub rdev : Option ℕ

-- A buffer object of GBM: its modifier, and of each plane the exported fd, offset and stride.
pub record BufferObject : Type 0 where
  pub object_modifier : ℕ
  pub object_planes : List (Option ℕ × (ℕ × ℕ))

-- What the system answers. A listing that fails is `none`, and so is an entry that cannot be read.
-- A buffer object is asked for by its number in the pool, path, width, height, fourcc and modifiers,
-- where `none` asks for a linear one.
pub record Machine : Type 0 where
  pub nodes : Option (List (Option Node))
  pub siblings : Text → Option (List (Option Text))
  pub node_opens : Text → Bool
  pub gbm_works : Text → Bool
  pub known_fourcc : ℕ → Bool
  pub create_object : ℕ → Text → ℕ → ℕ → ℕ → Option (List ℕ) → Option BufferObject
  pub memory : ℕ → Bool

-- `DmabufPlane`, `Dmabuf`; an fd is its number.
pub record Plane : Type 0 where
  pub fd : ℕ
  pub offset : ℕ
  pub stride : ℕ

pub record Dmabuf : Type 0 where
  pub planes : List Plane
  pub width : ℕ
  pub height : ℕ
  pub format : ℕ
  pub modifier : ℕ

-- `DmabufAllocator`: the path and the device for which it was opened.
pub record Allocator : Type 0 where
  pub path : Text
  pub dev_t : Option ℕ

abbrev pub is_device : ℕ → Option ℕ → Bool
is_device dev none = false
is_device dev (some d) = d == dev

unfoldable pub matching_node : ℕ → List (Option Node) → Result Failure Text
matching_node dev [] = err no_node_matches
matching_node dev (none ∷ rest) = err listing_failed
matching_node dev (some node ∷ rest) =
    let later = matching_node dev rest in if is_device dev node.rdev then ok node.name else later

abbrev pub is_render : Text → Bool
is_render name = starts_with name (text "renderD")

-- The first sibling that is a render node; entries that cannot be read are passed over.
unfoldable pub render_sibling : List (Option Text) → Result Failure Text
render_sibling [] = err no_render_node
render_sibling (none ∷ rest) = render_sibling rest
render_sibling (some name ∷ rest) =
    let later = render_sibling rest in if is_render name then ok name else later

abbrev pub sibling_among : Option (List (Option Text)) → Result Failure Text
sibling_among none = err no_render_node
sibling_among (some names) = render_sibling names

abbrev pub listed : Option (List (Option Node)) → Result Failure (List (Option Node))
listed none = err listing_failed
listed (some nodes) = ok nodes

-- The name in `/dev/dri` of the render node.
unfoldable pub resolve_render_node : Machine → ℕ → Result Failure Text
resolve_render_node m dev = listed m.nodes >>= matching_node dev >>= λ name.
    if is_render name then ok name else sibling_among (m.siblings name)

unfoldable pub open_node : Machine → Text → Result Failure Allocator
open_node m path =
    guard (m.node_opens path) node_not_opened
    >> guard (m.gbm_works path) no_gbm_device
    >> ok (record { path = path; dev_t = none })

unfoldable pub from_dev_t : Machine → ℕ → Result Failure Allocator
from_dev_t m dev = resolve_render_node m dev >>= open_node m >>= λ allocator.
    ok (record allocator { dev_t = some dev })

unfoldable pub export_planes : List (Option ℕ × (ℕ × ℕ)) → Result Failure (List Plane)
export_planes [] = ok []
export_planes ((none, place) ∷ rest) = err plane_not_exported
export_planes ((some fd, (offset, stride)) ∷ rest) = export_planes rest >>= λ planes.
    ok (record { fd = fd; offset = offset; stride = stride } ∷ planes)

abbrev pub asked_modifiers : List ℕ → Option (List ℕ)
asked_modifiers [] = none
asked_modifiers (m ∷ ms) = some (m ∷ ms)

abbrev pub created : Option BufferObject → Result Failure BufferObject
created none = err allocation_refused
created (some object) = ok object

-- `DmabufAllocator::allocate`, for the buffer of the pool with the given number.
unfoldable pub allocate : Machine → ℕ → Allocator → ℕ → ℕ → ℕ → List ℕ → Result Failure Dmabuf
allocate m number allocator width height format modifiers =
    guard (m.known_fourcc format) unknown_fourcc
    >> created
        (m.create_object number allocator.path width height format (asked_modifiers modifiers))
    >>= λ object. export_planes object.object_planes >>= λ planes. ok (record {
      planes = planes;
      width = width;
      height = height;
      format = format;
      modifier = object.object_modifier;
    })
