-- ===== src/Cbor/Maps.antt =====
-- Maps whose entries come in the order of their keys, as the decoder of runtime/src/cbor/cbor.cc fills
-- them.
use opal_cpp.Common.{◌≡◌, refl, ap, true, Bytes}
use opal_cpp.Server.Router.Table.{bytes_lt}
use opal_cpp.Cbor.{Document, Fields, empty_map, entry}
use opal_cpp.Cbor.Decode.{insert_or_assign}
use opal_cpp.Cbor.RoundTrip.{KeysAbove}

-- Maps that grow at their end.
abbrev pub joined : Fields → Fields → Fields
joined empty_map fields = fields
joined (entry key doc more) fields = entry key doc (joined more fields)

abbrev pub KeysBelow : Fields → Bytes → Type 0
KeysBelow empty_map key = Unit
KeysBelow (entry other doc fields) key = (bytes_lt other key ≡ true) × KeysBelow fields key

abbrev pub AllBelow : Fields → Fields → Type 0
AllBelow map empty_map = Unit
AllBelow map (entry key doc fields) = KeysBelow map key × AllBelow map fields

pub insert-last :
    (key : Bytes) (doc : Document) (map : Fields)
    → KeysBelow map key
    → insert_or_assign key doc map ≡ joined map (entry key doc empty_map)
unfolding insert_or_assign
insert-last key doc empty_map h = refl
insert-last key doc (entry other old map) h = rw (h.0, insert-last key doc map h.1) refl

pub joined_assoc :
    (map : Fields) (key : Bytes) (doc : Document) (fields : Fields)
    → joined (joined map (entry key doc empty_map)) fields ≡ joined map (entry key doc fields)
joined_assoc empty_map key doc fields = refl
joined_assoc (entry other old map) key doc fields =
    ap (entry other old) (joined_assoc map key doc fields)

pub KeysBelow-joined :
    (map : Fields) (last : Bytes) (doc : Document) (key : Bytes)
    → KeysBelow map key
    → bytes_lt last key ≡ true
    → KeysBelow (joined map (entry last doc empty_map)) key
KeysBelow-joined empty_map last doc key h lt = (lt, tt)
KeysBelow-joined (entry other old map) last doc key h lt =
    (h.0, KeysBelow-joined map last doc key h.1 lt)

pub AllBelow-joined :
    (fields map : Fields) (last : Bytes) (doc : Document)
    → AllBelow map fields
    → KeysAbove last fields
    → AllBelow (joined map (entry last doc empty_map)) fields
AllBelow-joined empty_map map last doc h above = tt
AllBelow-joined (entry key value fields) map last doc h above =
    (KeysBelow-joined map last doc key h.0 above.0, AllBelow-joined fields map last doc h.1 above.1)

pub nothing_below : (fields : Fields) → AllBelow empty_map fields
nothing_below empty_map = tt
nothing_below (entry key doc fields) = (tt, nothing_below fields)

pub joined-empty : (map : Fields) → joined map empty_map ≡ map
joined-empty empty_map = refl
joined-empty (entry key doc map) = ap (entry key doc) (joined-empty map)
