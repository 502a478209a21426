-- ===== src/Capture/Device/Nodes.antt =====
-- crates/capture/src/dmabuf.rs: which node is opened.
use moreland_kde.Base.{
  ℕ, ◌≡◌, refl, sym, ap, subst, ◌∙◌, Bool, true, false, Option, none, some, List, [], ◌∷◌,
  if◌then◌else◌,
}
use moreland_kde.Base.Result.{ok_injective, Result, ok, ◌>>=◌, ◌>>◌, guard, >>=-eq-ok}
use moreland_kde.Base.Text.{Text}
use moreland_kde.Capture.Failure.{Failure}
use moreland_kde.Capture.Device.{
  no_gbm_device, node_not_opened, Machine, Allocator, is_render, matching_node, render_sibling,
  sibling_among, listed, resolve_render_node, open_node, from_dev_t,
}

-- A name that is taken only if it is a render node's.
taken-is_render :
    (b : Bool) (name : Text) (later : Result Failure Text) (found : Text)
    → is_render name ≡ b
    → (later ≡ ok found → is_render found ≡ true)
    → (if b then ok name else later) ≡ ok found
    → is_render found ≡ true
taken-is_render true name later found e rest h =
    subst (λ n. is_render n ≡ true) (ok_injective Failure name found h) e
taken-is_render false name later found e rest h = rest h

render_sibling-is_render :
    (names : List (Option Text)) (found : Text)
    → render_sibling names ≡ ok found
    → is_render found ≡ true
unfolding render_sibling
render_sibling-is_render [] found h = absurd (cc)
render_sibling-is_render (none ∷ rest) found h = render_sibling-is_render rest found h
render_sibling-is_render (some name ∷ rest) found h =
    taken-is_render (is_render name) name (render_sibling rest) found refl
      (render_sibling-is_render rest found) h

sibling_among-is_render :
    (names : Option (List (Option Text))) (found : Text)
    → sibling_among names ≡ ok found
    → is_render found ≡ true
sibling_among-is_render none found h = absurd (cc)
sibling_among-is_render (some names) found h = render_sibling-is_render names found h

resolve_render_node-is_render :
    (m : Machine) (dev : ℕ) (found : Text)
    → resolve_render_node m dev ≡ ok found
    → is_render found ≡ true
unfolding resolve_render_node
resolve_render_node-is_render m dev found h =
    let (name, listing, chosen) =
      >>=-eq-ok (listed m.nodes >>= matching_node dev)
        (λ name. if is_render name then ok name else sibling_among (m.siblings name)) h in
    taken-is_render (is_render name) name (sibling_among (m.siblings name)) found refl
      (sibling_among-is_render (m.siblings name) found) chosen

open_node-path :
    (m : Machine) (path : Text) (a : Allocator) → open_node m path ≡ ok a → a.path ≡ path
unfolding open_node
open_node-path m path a h =
    let made : Allocator = record { path = path; dev_t = none } in
    let (u, passes, same) =
      >>=-eq-ok
        (guard (m.node_opens path) node_not_opened >> guard (m.gbm_works path) no_gbm_device)
        (λ _. ok made) h in
    sym (ap (λ r. r.path) (ok_injective Failure made a same))

-- An allocator that was opened for a device stands on a render node, though the compositor may name
-- the primary node, and remembers the device it was asked for.
from_dev_t-is_render :
    (m : Machine) (dev : ℕ) (a : Allocator)
    → from_dev_t m dev ≡ ok a
    → (is_render a.path ≡ true) × (a.dev_t ≡ some dev)
unfolding from_dev_t
from_dev_t-is_render m dev a h =
    let (opened, opens, named) =
      >>=-eq-ok (resolve_render_node m dev >>= open_node m)
        (λ allocator. ok (record allocator { dev_t = some dev })) h in
    let (name, resolves, opens') = >>=-eq-ok (resolve_render_node m dev) (open_node m) opens in
    let same : record opened { dev_t = some dev } ≡ a =
      ok_injective Failure (record opened { dev_t = some dev }) a named in
    let same_path : a.path ≡ name =
      sym (ap (λ r. r.path) same) ∙ open_node-path m name opened opens' in
    (
      subst (λ n. is_render n ≡ true) (sym same_path)
          (resolve_render_node-is_render m dev name resolves),
      sym (ap (λ r. r.dev_t) same),
    )
