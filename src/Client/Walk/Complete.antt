-- ===== src/Client/Walk/Complete.antt =====
-- client.ts: against a server that pages one list, the walk returns the whole list.
use tidybridge.Base.{
  ℕ, zero, suc, ◌+◌, js, starts_with, ◌≤◌, ◌<◌, ◌≡◌, refl, sym, ap, ◌∙◌, Str, Option, some, List,
  [], ◌∷◌, ◌++◌, arith, length, take, drop, length-take, length-append, if◌then◌else◌, length-drop,
  take-append-drop, drop_all, append_assoc, append-nil, Bool-cases, inl, inr, Bool, ◌||◌, ◌==◌, leb,
}
use tidybridge.Types.{ClientRecord, Page}
use tidybridge.Client.Errors.{Result, ok, fail}
use tidybridge.Client.Request.{
  Session, Build, HttpRequest, Response, Payload, records, Options, defaults, build_request,
  request, settle, payload_of, contains,
}
use tidybridge.Client.Walk.{round, walk, as_records, records_path, list_records}

drop-append {ℓ} : {A : Type ℓ} (xs ys : List A) → drop (length xs) (xs ++ ys) ≡ ys
drop-append [] ys = refl
drop-append (x ∷ xs) ys = drop-append xs ys

-- The answer at an offset of a server that holds `xs` and sends at most `size` at a time.
abbrev pub slice : {A : Type 0} → ℕ → List A → ℕ → Page A
slice size xs offset = record {
  items = take size (drop offset xs);
  total = length xs;
  limit = size;
  offset = offset;
}

-- A part that reaches the end of what is left is all that is left.
take_rest {ℓ} :
    {A : Type ℓ} (size : ℕ) (rest : List A)
    → length rest ≤ length (take size rest)
    → take size rest ≡ rest
take_rest size rest h =
    let all_taken : length rest ≤ size = omega (arith, length-take size rest) in
    sym (append-nil (take size rest))
    ∙ (ap (λ r. take size rest ++ r) (sym (drop_all size rest all_taken))
        ∙ take-append-drop size rest)

module _ {A S : Type 0} where
  round_ok :
      (again : ℕ → List A → Session S → Option (Result (List A) × Session S)) (offset : ℕ)
      (all : List A) (p : Result (Page A) × Session S) (page : Page A)
      → p.0 ≡ ok page
      → round again offset all p ≡ (
          if length page.items == 0 || leb page.total (offset + length page.items)
          then some (ok (all ++ page.items), p.1)
          else again (offset + length page.items) (all ++ page.items) p.1)
  unfolding round
  round_ok again offset all (fail e, w) page h = cc
  round_ok again offset all (ok page', w) page h = let e : page' ≡ page = cc in rw e

module _ {A S : Type 0} (fetch : ℕ → Session S → Result (Page A) × Session S) (size : ℕ)
    (xs : List A) (pos : 0 < size)
    (serves : (offset : ℕ) (w : Session S) → (fetch offset w).0 ≡ ok (slice size xs offset)) where
  -- What a round is answered, once `all` was read and `rest` is left.
  answer :
      (all rest : List A) (w : Session S)
      → all ++ rest ≡ xs
      → (fetch (length all) w).0
        ≡ ok (record {
          items = take size rest;
          total = length all + length rest;
          limit = size;
          offset = length all;
        })
  answer all rest w h =
      rw (serves (length all) w, ← h, drop-append all rest, length-append all rest)

  walk_from :
      (fuel : ℕ) (all rest : List A) (w : Session S)
      → all ++ rest ≡ xs
      → length rest < fuel
      → (w' : Session S) × (walk fetch fuel (length all) all w ≡ some (ok xs, w'))
  unfolding walk
  walk_from zero all rest w h k = absurd (omega arith)
  walk_from (suc fuel) all rest w h k =
      rw
        (round_ok (walk fetch fuel) (length all) all (fetch (length all) w) _ (answer all rest w h))
        (elim (Bool-cases (
          length (take size rest) == 0
          || leb (length all + length rest) (length all + length (take size rest)))) [
            | inl done ↦ (
              (fetch (length all) w).1,
              rw (done, take_rest size rest (ground (arith, length-take size rest)), h),
            )
            | inr more ↦
                let joined : (all ++ take size rest) ++ drop size rest ≡ xs =
                  append_assoc all (take size rest) (drop size rest)
                  ∙ (ap (λ r. all ++ r) (take-append-drop size rest) ∙ h) in
                let fewer : length (drop size rest) < fuel =
                  ground (arith, length-take size rest, length-drop size rest) in
                let (w', e) =
                  walk_from fuel (all ++ take size rest) (drop size rest) (fetch (length all) w).1
                    joined fewer in
                (w', rw more (rw (length-append all (take size rest)) at e))
          ])

  -- With a unit of fuel to each item and one more, the walk returns the whole list.
  pub walk_complete :
      (fuel : ℕ) (w : Session S)
      → length xs < fuel
      → (w' : Session S) × (walk fetch fuel 0 [] w ≡ some (ok xs, w'))
  walk_complete fuel w h = walk_from fuel [] xs w refl h

-- A 200 with a JSON body is handed over as it is.
request_ok :
    {S T : Type 0} (build : Build) (serve : S → HttpRequest → Option Response × S)
    (cast : Payload → Result T) (path : Str) (opts : Options) (w : Session S) (body : Payload)
    → (serve w.server (build_request build w.token path opts)).0
      ≡ some (record { status = 200; content_type = some (js "application/json"); body = body })
    → (request build serve cast path opts w).0 ≡ cast body
unfolding request settle payload_of contains starts_with js
request_ok build serve cast path opts w body h = rw h

-- Against a server that answers every offset with the 500 items of the list `xs` from there on,
-- `listRecords` returns `xs`, on any fuel of more units than `xs` has items.
pub list_records_complete :
    {S : Type 0} (build : Build) (serve : S → HttpRequest → Option Response × S)
    (has_issues : Option Bool) (run : Option Str) (xs : List ClientRecord)
    → ((offset : ℕ) (s : S) (token : Option Str)
        → (serve s (build_request build token (records_path has_issues run offset) defaults)).0
          ≡ some (record {
            status = 200;
            content_type = some (js "application/json");
            body = records (slice 500 xs offset);
          }))
    → (fuel : ℕ) (w : Session S) → length xs < fuel
    → (w' : Session S) × (list_records build serve fuel has_issues run w ≡ some (ok xs, w'))
unfolding list_records
list_records_complete build serve has_issues run xs answers fuel w h =
    walk_complete
      (λ offset. request build serve as_records (records_path has_issues run offset) defaults) 500
      xs (omega arith)
      (λ offset v.
        request_ok build serve as_records (records_path has_issues run offset) defaults v _
          (answers offset v.server v.token))
      fuel w h
