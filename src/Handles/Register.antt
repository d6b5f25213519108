-- ===== src/Handles/Register.antt =====
-- `skynet_handle_register`: a new handle for a context.
use rillserver.Prelude.{
  some_inj, ℕ, suc, ◌+◌, ◌*◌, ◌%◌, ◌^◌, ◌<◌, ◌≤◌, ◌≡◌, ◌≢◌, refl, ap, sym, ◌∙◌, arith, Option, some,
  ◌==◌, if◌then◌else◌,
}
use rillserver.Prelude.Ring.{mod_wrap}
use rillserver.Handles.{HandleStorage, find_handle, handle_register}
use rillserver.Handles.Table.{IsTable, IsAbsent, Probe, hit, full, size-pos}
use rillserver.Handles.Probes.{find_handle-Probe, full_round}
use rillserver.Handles.Rehash.{doubled, moved_inv, mod-double}
use rillserver.Handles.Doubling.{Doubles, double_slots-Doubles}
use native.Mathlib.Nat.{mod-lt, mod-add-mod, add-mod_right}
use rillserver.Handles.Fresh.{Registers, placed-Registers}

add-mod_ne : (n x : ℕ) → 1 ≤ n → (x + n) % (n * 2) ≢ (x + 0) % (n * 2)
add-mod_ne n x up e =
    let r = x % (n * 2) in
    let r_lt : r < n * 2 = mod-lt x (omega arith) in
    let far : (r + n) % (n * 2) ≡ r =
      mod-add-mod x (n * 2) n ∙ e ∙ ap (λ (y : ℕ). y % (n * 2)) (omega arith) in
    ground (arith, mod_wrap (n * 2) (r + n) (omega arith), far, r_lt)

-- A context and its shadow `slot_size` places on cannot both be there: the table has room again.
doubled_room :
    (handle_of : ℕ → ℕ) (s : HandleStorage) (d : Doubles handle_of s)
    → 1 ≤ s.slot_size
    → ¬ (
        (k : ℕ)
        → k < s.slot_size * 2
        → (c : ℕ) × (d.slots ((s.handle_index + k) % (s.slot_size * 2)) ≡ some c))
doubled_room handle_of s d up all =
    let index = s.handle_index in
    let n = s.slot_size in
    let (c0, e0) = all 0 (omega arith) in
    let (c1, e1) = all n (omega arith) in
    let (from0, at0) =
      moved_inv handle_of s ((index + 0) % (n * 2)) c0 (sym (d.slots_moved _) ∙ e0) in
    let (from1, at1) =
      moved_inv handle_of s ((index + n) % (n * 2)) c1 (sym (d.slots_moved _) ∙ e1) in
    let same_row : (index + n) % (n * 2) % n ≡ (index + 0) % (n * 2) % n =
      mod-double handle_of s (index + n)
      ∙ add-mod_right index n
      ∙ ap (λ (y : ℕ). y % n) (omega arith)
      ∙ sym (mod-double handle_of s (index + 0)) in
    let same : c1 ≡ c0 = some_inj (sym from1 ∙ ap s.slot same_row ∙ from0) in
    add-mod_ne n index up (sym at1 ∙ ap (λ (c : ℕ). handle_of c % (n * 2)) same ∙ at0)

-- On a sound table, with two rounds of handles left before the last one
-- (handle_index + 2 * slot_size ≤ 2^24), a context that is not in the table gets a handle from
-- handle_index up that finds no context yet. Two rounds of the loop are enough, the second one in a
-- table of twice the size. Once the caller has stored the handle in the context, the table is sound,
-- the handle finds the context, and every other handle finds what it found before.
pub handle_register-Registers :
    (handle_of : ℕ → ℕ) (s : HandleStorage) (ctx fuel : ℕ)
    → IsTable handle_of s
    → IsAbsent s ctx
    → s.handle_index + s.slot_size * 2 ≤ 2 ^ 24
    → Registers handle_of s ctx (handle_register (suc (suc fuel)) handle_of s ctx)
unfolding handle_register
handle_register-Registers handle_of s ctx fuel v away room =
    first (find_handle s.slot_size s s.handle_index) refl
      (find_handle-Probe s.slot_size s s.handle_index (omega arith))
  where
    some_slots : 1 ≤ s.slot_size
    some_slots = size-pos s.slot_size (2 ^ v.left) v.size

    second :
        (d : Doubles handle_of s) (o : Option ℕ)
        → find_handle (s.slot_size * 2) (doubled s d.slots) s.handle_index ≡ o
        → Probe (doubled s d.slots) s.handle_index (s.slot_size * 2) o
        → Registers handle_of s ctx (handle_register (suc fuel) handle_of (doubled s d.slots) ctx)
    second d o e (full all) = absurd (doubled_room handle_of s d some_slots all)
    second d o e (hit h lo hi free) =
        let r =
          placed-Registers handle_of (doubled s d.slots) ctx h d.sound (d.absent ctx away) lo
            (omega arith) free in
        rw (handle_register, e)
          (record {
            local = r.local;
            after = r.after;
            done = r.done;
            next_up = r.next_up;
            local_fits = r.local_fits;
            unused = sym (d.grabs (r.local + s.harbor)) ∙ r.unused;
            sound = r.sound;
            grabs = λ h'.
                r.grabs h'
                ∙ ap (λ (o : Option ℕ). if r.local + s.harbor == h' then some ctx else o)
                    (d.grabs h');
          })

    first :
        (o : Option ℕ)
        → find_handle s.slot_size s s.handle_index ≡ o
        → Probe s s.handle_index s.slot_size o
        → Registers handle_of s ctx (handle_register (suc (suc fuel)) handle_of s ctx)
    first o e (hit h lo hi free) =
        rw (handle_register, e) (placed-Registers handle_of s ctx h v away lo (omega arith) free)
    first o e (full all) =
        let d =
          double_slots-Doubles handle_of s v (omega arith)
            (full_round s s.handle_index some_slots all) in
        let done = d.done in
        rw (handle_register, e, done)
          (second d _ refl
            (find_handle-Probe (s.slot_size * 2) (doubled s d.slots) s.handle_index (omega arith)))
