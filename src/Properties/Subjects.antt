-- ===== src/Properties/Subjects.antt =====
-- The types of entities that have each property
-- (server/controllers/entities/lib/properties/properties.ts), in the order of the file.
use inventaire.Base.{String, List, [], ◌∷◌, ◌++◌, includes, string_eq, if◌then◌else◌, map}
use inventaire.Properties.{all_locally_edited_entities_types}

abbrev pub Subjects : Type 0
Subjects = List (String × List String)

abbrev pub first_subjects : Subjects
first_subjects =
    ("invp:P1", all_locally_edited_entities_types)
    ∷ ("invp:P2", "edition" ∷ [])
    ∷ ("invp:P3", all_locally_edited_entities_types)
    ∷ ("wdt:P31", all_locally_edited_entities_types)
    ∷ ("wdt:P112", "publisher" ∷ [])
    ∷ ("wdt:P123", "edition" ∷ "collection" ∷ [])
    ∷ ("wdt:P127", "publisher" ∷ [])
    ∷ ("wdt:P135", "human" ∷ [])
    ∷ ("wdt:P136", "work" ∷ "serie" ∷ [])
    ∷ ("wdt:P144", "work" ∷ "serie" ∷ [])
    ∷ ("wdt:P179", "work" ∷ "serie" ∷ [])
    ∷ ("wdt:P195", "edition" ∷ [])
    ∷ ("wdt:P212", "edition" ∷ [])
    ∷ ("wdt:P213", "human" ∷ [])
    ∷ ("wdt:P214", "work" ∷ "serie" ∷ "edition" ∷ "human" ∷ [])
    ∷ ("wdt:P227", all_locally_edited_entities_types)
    ∷ ("wdt:P243", all_locally_edited_entities_types)
    ∷ ("wdt:P244", "work" ∷ "serie" ∷ "human" ∷ "publisher" ∷ "collection" ∷ [])
    ∷ ("wdt:P268", all_locally_edited_entities_types)
    ∷ ("wdt:P269", "work" ∷ "serie" ∷ "human" ∷ [])
    ∷ ("wdt:P349", "human" ∷ [])
    ∷ ("wdt:P356", "edition" ∷ [])
    ∷ ("wdt:P407", "work" ∷ "serie" ∷ "edition" ∷ "collection" ∷ [])
    ∷ ("wdt:P437", "edition" ∷ [])
    ∷ ("wdt:P496", "human" ∷ [])
    ∷ ("wdt:P569", "human" ∷ [])
    ∷ ("wdt:P570", "human" ∷ [])
    ∷ ("wdt:P571", "publisher" ∷ [])
    ∷ ("wdt:P576", "publisher" ∷ [])
    ∷ []

abbrev pub second_subjects : Subjects
second_subjects =
    ("wdt:P577", "work" ∷ "serie" ∷ "edition" ∷ [])
    ∷ ("wdt:P629", "edition" ∷ [])
    ∷ ("wdt:P648", "work" ∷ "serie" ∷ "human" ∷ "edition" ∷ [])
    ∷ ("wdt:P675", "edition" ∷ [])
    ∷ ("wdt:P742", "human" ∷ [])
    ∷ ("wdt:P737", "human" ∷ [])
    ∷ ("wdt:P749", "publisher" ∷ [])
    ∷ ("wdt:P856", all_locally_edited_entities_types)
    ∷ ("wdt:P906", "human" ∷ [])
    ∷ ("wdt:P921", "work" ∷ "serie" ∷ "collection" ∷ [])
    ∷ ("wdt:P941", "work" ∷ "serie" ∷ [])
    ∷ ("wdt:P950", all_locally_edited_entities_types)
    ∷ ("wdt:P957", "edition" ∷ [])
    ∷ ("wdt:P1006", "human" ∷ [])
    ∷ ("wdt:P1025", "edition" ∷ [])
    ∷ ("wdt:P1044", "edition" ∷ [])
    ∷ ("wdt:P1085", "work" ∷ [])
    ∷ ("wdt:P1104", "edition" ∷ [])
    ∷ ("wdt:P1143", "edition" ∷ [])
    ∷ ("wdt:P1144", "edition" ∷ [])
    ∷ ("wdt:P1182", "edition" ∷ [])
    ∷ ("wdt:P1233", "human" ∷ [])
    ∷ ("wdt:P1234", "edition" ∷ [])
    ∷ ("wdt:P1235", "serie" ∷ [])
    ∷ ("wdt:P1239", "publisher" ∷ [])
    ∷ ("wdt:P1274", "work" ∷ [])
    ∷ ("wdt:P1292", "edition" ∷ [])
    ∷ ("wdt:P1412", "human" ∷ [])
    ∷ ("wdt:P1433", "article" ∷ [])
    ∷ ("wdt:P1476", "edition" ∷ "collection" ∷ [])
    ∷ ("wdt:P1545", "work" ∷ "serie" ∷ [])
    ∷ ("wdt:P1581", all_locally_edited_entities_types)
    ∷ []

abbrev pub third_subjects : Subjects
third_subjects =
    ("wdt:P1680", "edition" ∷ "collection" ∷ [])
    ∷ ("wdt:P1844", "edition" ∷ [])
    ∷ ("wdt:P1889", all_locally_edited_entities_types)
    ∷ ("wdt:P1960", "human" ∷ [])
    ∷ ("wdt:P1982", "human" ∷ [])
    ∷ ("wdt:P1983", "publisher" ∷ [])
    ∷ ("wdt:P1984", "work" ∷ "serie" ∷ [])
    ∷ ("wdt:P2002", all_locally_edited_entities_types)
    ∷ ("wdt:P2003", all_locally_edited_entities_types)
    ∷ ("wdt:P2013", all_locally_edited_entities_types)
    ∷ ("wdt:P2397", all_locally_edited_entities_types)
    ∷ ("wdt:P2607", "human" ∷ [])
    ∷ ("wdt:P2635", "edition" ∷ [])
    ∷ ("wdt:P2675", "work" ∷ "serie" ∷ [])
    ∷ ("wdt:P2963", "human" ∷ [])
    ∷ ("wdt:P2969", "edition" ∷ [])
    ∷ ("wdt:P3035", "publisher" ∷ [])
    ∷ ("wdt:P3155", "edition" ∷ [])
    ∷ ("wdt:P3184", "edition" ∷ [])
    ∷ ("wdt:P3630", "human" ∷ [])
    ∷ ("wdt:P3631", "work" ∷ [])
    ∷ ("wdt:P4033", all_locally_edited_entities_types)
    ∷ ("wdt:P4084", "human" ∷ [])
    ∷ ("wdt:P4087", "work" ∷ "serie" ∷ [])
    ∷ ("wdt:P4285", "human" ∷ [])
    ∷ ("wdt:P5199", "edition" ∷ [])
    ∷ ("wdt:P5331", "work" ∷ "serie" ∷ [])
    ∷ ("wdt:P4369", "human" ∷ [])
    ∷ ("wdt:P5361", "human" ∷ [])
    ∷ ("wdt:P5491", "human" ∷ [])
    ∷ ("wdt:P5570", "human" ∷ [])
    ∷ ("wdt:P5571", "work" ∷ [])
    ∷ ("wdt:P5792", "serie" ∷ [])
    ∷ []

abbrev pub last_subjects : Subjects
last_subjects =
    ("wdt:P6901", "edition" ∷ [])
    ∷ ("wdt:P6634", "human" ∷ [])
    ∷ ("wdt:P6947", "serie" ∷ [])
    ∷ ("wdt:P7400", "human" ∷ [])
    ∷ ("wdt:P7823", "work" ∷ [])
    ∷ ("wdt:P7937", "work" ∷ [])
    ∷ ("wdt:P8063", "publisher" ∷ [])
    ∷ ("wdt:P8383", "work" ∷ [])
    ∷ ("wdt:P8513", "serie" ∷ [])
    ∷ ("wdt:P8619", "serie" ∷ [])
    ∷ ("wdt:P11892", all_locally_edited_entities_types)
    ∷ ("wdt:P12048", "serie" ∷ [])
    ∷ ("wdt:P12319", "serie" ∷ [])
    ∷ ("wdt:P12351", "edition" ∷ [])
    ∷ ("wdt:P12361", all_locally_edited_entities_types)
    ∷ ("wdt:P12852", "publisher" ∷ [])
    ∷ ("wdt:P13004", "collection" ∷ [])
    ∷ ("wdt:P13137", "collection" ∷ [])
    ∷ []

abbrev pub work_author_relations_properties : List String
work_author_relations_properties =
    "wdt:P50" ∷ "wdt:P58" ∷ "wdt:P98" ∷ "wdt:P110" ∷ "wdt:P6338" ∷ "wdt:P9191" ∷ "wdt:P10836"
    ∷ "wdt:P10837" ∷ []

abbrev pub edition_author_relations_properties : List String
edition_author_relations_properties = "wdt:P655" ∷ "wdt:P2679" ∷ "wdt:P2680" ∷ []

-- `_properties[property] = { subjectTypes }`, for each property of a list
abbrev pub with_types : List String → List String → Subjects
with_types types properties = map (λ property. (property, types)) properties

unfoldable pub subject_types : Subjects
subject_types =
    first_subjects
    ++ (second_subjects
        ++ (third_subjects
            ++ (last_subjects
                ++ (with_types ("work" ∷ "serie" ∷ []) work_author_relations_properties
                    ++ with_types ("edition" ∷ []) edition_author_relations_properties))))

-- propertiesPerType, of one type
unfoldable pub properties_of_type : String → Subjects → List String
properties_of_type type [] = []
properties_of_type type ((property, types) ∷ rest) =
    let others = properties_of_type type rest in
    if includes types type then property ∷ others else others
