-- ===== src/Examples/Formats.antt =====
-- Formats of serde over a list of items: one that does not look at the length of a tuple, and one that
-- counts down.
use ultrasonic.Prelude.{
  ℕ, zero, suc, ◌≡◌, refl, sym, ap, Bool, false, List, [], ◌∷◌, ◌++◌, Result, ok, err, Bytes,
}
use ultrasonic.Serde.{ScalarSerializer, ScalarDeserializer, ScalarFormat}
use ultrasonic.Serde.Address.{Serializer, Deserializer}
use ultrasonic.Serde.Address.RoundTrip.{IgnoresLength, CountsElements}

pub data Item : Type 0 where
  text : List ℕ → Item
  number : ℕ → Item
  blob : Bytes → Item

abbrev pub item_ser : Bool → ScalarSerializer Bytes Item (Unit {0})
item_ser human = record {
  is_human_readable = human;
  serialize_str = λ s. ok (text s);
  serialize_u16 = λ n. ok (number n);
  serialize_inner = λ b. ok (blob b);
}

string_of : Item → Result (List ℕ) (Unit {0})
string_of (text s) = ok s
string_of _ = err tt

number_of : Item → Result ℕ (Unit {0})
number_of (number n) = ok n
number_of _ = err tt

blob_of : Item → Result Bytes (Unit {0})
blob_of (blob b) = ok b
blob_of _ = err tt

unfoldable pub item_de : Bool → Item → ScalarDeserializer Bytes (Unit {0})
unfolding string_of number_of blob_of
item_de human item = record {
  is_human_readable = human;
  string = string_of item;
  u16 = number_of item;
  inner = blob_of item;
}

pub items : (human : Bool) → ScalarFormat (item_ser human) (item_de human)
unfolding item_de
items human = record {
  readable = λ out. refl;
  str = λ s. (text s, refl, refl);
  u16 = λ n h. (number n, refl, refl);
  inner = λ b. (blob b, refl, refl);
}

unfoldable pub first_of : List Item → Item
first_of [] = blob []
first_of (item ∷ rest) = item

unfoldable pub second_of : List Item → Item
unfolding first_of
second_of [] = blob []
second_of (item ∷ rest) = first_of rest

appended : List Item → Result Item (Unit {0}) → Result (List Item) (Unit {0})
appended tuple (err e) = err e
appended tuple (ok item) = ok (tuple ++ item ∷ [])

listed : Result Item (Unit {0}) → Result (List Item) (Unit {0})
listed (err e) = err e
listed (ok item) = ok (item ∷ [])

abbrev list_ser : Bool → ScalarSerializer Bytes (List Item) (Unit {0})
list_ser human = record {
  is_human_readable = human;
  serialize_str = λ s. ok (text s ∷ []);
  serialize_u16 = λ n. ok (number n ∷ []);
  serialize_inner = λ b. ok (blob b ∷ []);
}

-- A format that does not look at the length.
abbrev pub lenient : Bool → Serializer (List Item) Item (List Item) (Unit {0})
unfolding appended
lenient human = record {
  scalar = list_ser human;
  serialize_tuple = λ n. ok [];
  serialize_element = λ tuple write. appended tuple (write (item_ser human));
  end = λ tuple. ok tuple;
}

both : {A B : Type 0} → Result A (Unit {0}) → Result B (Unit {0}) → Result (A × B) (Unit {0})
both (err e) r = err e
both (ok a) (err e) = err e
both (ok a) (ok b) = ok (a, b)

abbrev pub reader : Bool → List Item → Deserializer (Unit {0})
unfolding item_de first_of second_of both
reader human out = record {
  scalar = item_de human (first_of out);
  pair = λ A B read read'.
      both (read (item_de human (first_of out))) (read' (item_de human (second_of out)));
}

pub lenient-IgnoresLength : (human : Bool) → IgnoresLength (lenient human) (reader human)
unfolding lenient reader first_of second_of item_de both appended
lenient-IgnoresLength human = record {
  scalar = record {
    readable = λ out. refl;
    str = λ s. (text s ∷ [], refl, refl);
    u16 = λ n h. (number n ∷ [], refl, refl);
    inner = λ b. (blob b ∷ [], refl, refl);
  };
  item_ser = item_ser human;
  item_de = item_de human;
  items = items human;
  pair_lem = λ n A B a b write read write' read' (x, wrote, back) (y, wrote', back').
      (x ∷ y ∷ [], rw (wrote, wrote') refl, rw (back, back') refl);
}

-- A format that holds the number of elements still to come.
counted : ℕ × List Item → Result Item (Unit {0}) → Result (ℕ × List Item) (Unit {0})
counted (zero, tuple) r = err tt
counted (suc n, tuple) (err e) = err e
counted (suc n, tuple) (ok item) = ok (n, tuple ++ item ∷ [])

finished : ℕ × List Item → Result (List Item) (Unit {0})
finished (zero, tuple) = ok tuple
finished (suc n, tuple) = err tt

unfoldable pub strict : Serializer (List Item) Item (ℕ × List Item) (Unit {0})
unfolding counted finished
strict = record {
  scalar = list_ser false;
  serialize_tuple = λ n. ok (n, []);
  serialize_element = λ tuple write. counted tuple (write (item_ser false));
  end = λ tuple. finished tuple;
}

counted-room :
    (tuple tuple' : ℕ × List Item) (r : Result Item (Unit {0}))
    → counted tuple r ≡ ok tuple'
    → suc (tuple'.0) ≡ tuple.0
unfolding counted
counted-room (zero, tuple) tuple' r h = cc
counted-room (suc n, tuple) tuple' (err e) h = cc
counted-room (suc n, tuple) tuple' (ok item) h =
    let e : (n, tuple ++ item ∷ []) ≡ tuple' = cc in ap (λ (p : ℕ × List Item). suc (p.0)) (sym e)

pub strict-CountsElements : CountsElements strict
unfolding strict
strict-CountsElements = record {
  room = λ tuple. tuple.0;
  room-serialize_tuple =
      λ n tuple h. let e : (n, []) ≡ tuple = cc in ap (λ (p : ℕ × List Item). p.0) (sym e);
  room-serialize_element = λ tuple tuple' write h. counted-room tuple tuple' _ h;
}
