-- ===== src/Tests/Arrays.antt =====
-- Concrete arrays for include/vector.h.
use turbokit.Base.{ℕ, ◌+◌, ◌≡◌, refl, true, false, arith, ◌==◌, if◌then◌else◌}
use turbokit.Vector.Memory.{raw, live, moved, Element}
use turbokit.Vector.Array.{ok, DynamicArray, emplace_back, remove_range, insert_at}
use turbokit.Vector.Contents.{Holds}
use turbokit.Vector.Append.{emplace_back-Holds}
use turbokit.Vector.Drop.{cut}
use turbokit.Vector.Remove.{remove_range-Holds}
use turbokit.Vector.Contents.{Live}
use turbokit.Vector.InsertMoved.{insert_at-moved}
use turbokit.Vector.InsertAt.{put, insert_at-Holds}

abbrev string : Element
string = record { trivial = false; size = 32 }

abbrev number : Element
number = record { trivial = true; size = 8 }

-- 10, 20 and 30 at the end of a memory of four slots.
abbrev three : DynamicArray ℕ
three = record {
  allocated = true;
  memory =
      λ i. if i == 1 then live 10 else if i == 2 then live 20 else if i == 3 then live 30 else raw;
  memory_limit = 4;
  current_start = 1;
  current_end = 4;
  element_count = 3;
}

abbrev tens : ℕ → ℕ
tens i = if i == 0 then 10 else if i == 1 then 20 else 30

three-Holds : Holds three 3 tens
three-Holds = record {
  count = refl;
  finish = refl;
  fits = omega arith;
  contents = λ i lt. ground arith;
  unallocated = λ q. cc;
}

emplace_back-Holds_example :
    (w : DynamicArray ℕ) × (emplace_back string 40 three ≡ ok w)
    × Holds w 4 (λ i. if i == 3 then 40 else tens i)
emplace_back-Holds_example = emplace_back-Holds string three 3 tens 40 three-Holds

remove_range-Holds_example :
    (w : DynamicArray ℕ) × (remove_range string 2 3 three ≡ ok w) × Holds w 2 (cut 1 2 tens)
remove_range-Holds_example =
    remove_range-Holds string three 3 1 2 tens (omega arith) (omega arith) three-Holds

insert_at-Holds_example :
    (w : DynamicArray ℕ) × (insert_at number 1 15 three ≡ ok (w, 1)) × Holds w 4 (put 1 15 tens)
insert_at-Holds_example = insert_at-Holds number refl three 3 1 tens 15 three-Holds (omega arith)

insert_at-moved_example :
    (w : DynamicArray ℕ) × (insert_at string 1 15 three ≡ ok (w, 1))
    × (w.element_count ≡ 4)
    × Live w.memory w.current_start 3 (put 1 15 tens)
    × (w.memory (w.current_start + 3) ≡ moved)
insert_at-moved_example = insert_at-moved string refl three 3 1 tens 15 three-Holds (omega arith)
