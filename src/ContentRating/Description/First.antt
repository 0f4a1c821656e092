-- ===== src/ContentRating/Description/First.antt =====
-- src/as-content-rating.c: the first half of the table `oars_descriptions`.
use appstream.Base.{none, some, List, [], ◌∷◌, codes}
use appstream.ContentRating.Description.{Description}

abbrev pub first_descriptions : List Description
first_descriptions =
    (record {
      id = codes "violence-cartoon";
      desc_none = "No cartoon violence";
      desc_mild = some "Cartoon characters in unsafe situations";
      desc_moderate = some "Cartoon characters in aggressive conflict";
      desc_intense = some "Graphic violence involving cartoon characters";
    })
    ∷ (record {
      id = codes "violence-fantasy";
      desc_none = "No fantasy violence";
      desc_mild = some "Characters in unsafe situations easily distinguishable from reality";
      desc_moderate = some "Characters in aggressive conflict easily distinguishable from reality";
      desc_intense = some "Graphic violence easily distinguishable from reality";
    })
    ∷ (record {
      id = codes "violence-realistic";
      desc_none = "No realistic violence";
      desc_mild = some "Mildly realistic characters in unsafe situations";
      desc_moderate = some "Depictions of realistic characters in aggressive conflict";
      desc_intense = some "Graphic violence involving realistic characters";
    })
    ∷ (record {
      id = codes "violence-bloodshed";
      desc_none = "No bloodshed";
      desc_mild = some "Unrealistic bloodshed";
      desc_moderate = some "Realistic bloodshed";
      desc_intense = some "Depictions of bloodshed and the mutilation of body parts";
    })
    ∷ (record {
      id = codes "violence-sexual";
      desc_none = "No sexual violence";
      desc_mild = some "Rape or other violent sexual behavior";
      desc_moderate = none;
      desc_intense = none;
    })
    ∷ (record {
      id = codes "drugs-alcohol";
      desc_none = "No references to alcohol";
      desc_mild = some "References to alcoholic beverages";
      desc_moderate = some "Use of alcoholic beverages";
      desc_intense = none;
    })
    ∷ (record {
      id = codes "drugs-narcotics";
      desc_none = "No references to illicit drugs";
      desc_mild = some "References to illicit drugs";
      desc_moderate = some "Use of illicit drugs";
      desc_intense = none;
    })
    ∷ (record {
      id = codes "drugs-tobacco";
      desc_none = "No references to tobacco products";
      desc_mild = some "References to tobacco products";
      desc_moderate = some "Use of tobacco products";
      desc_intense = none;
    })
    ∷ (record {
      id = codes "sex-nudity";
      desc_none = "No nudity of any sort";
      desc_mild = some "Brief artistic nudity";
      desc_moderate = some "Prolonged nudity";
      desc_intense = none;
    })
    ∷ (record {
      id = codes "sex-themes";
      desc_none = "No references to or depictions of sexual nature";
      desc_mild = some "Provocative references or depictions";
      desc_moderate = some "Sexual references or depictions";
      desc_intense = some "Graphic sexual behavior";
    })
    ∷ (record {
      id = codes "language-profanity";
      desc_none = "No profanity of any kind";
      desc_mild = some "Mild or infrequent use of profanity";
      desc_moderate = some "Moderate use of profanity";
      desc_intense = some "Strong or frequent use of profanity";
    })
    ∷ (record {
      id = codes "language-humor";
      desc_none = "No inappropriate humor";
      desc_mild = some "Slapstick humor";
      desc_moderate = some "Vulgar or bathroom humor";
      desc_intense = some "Mature or sexual humor";
    })
    ∷ (record {
      id = codes "language-discrimination";
      desc_none = "No discriminatory language of any kind";
      desc_mild = some "Negativity towards a specific group of people";
      desc_moderate = some "Discrimination designed to cause emotional harm";
      desc_intense = some "Explicit discrimination based on gender, sexuality, race or religion";
    })
    ∷ (record {
      id = codes "money-advertising";
      desc_none = "No advertising of any kind";
      desc_mild = some "Product placement";
      desc_moderate = some "Explicit references to specific brands or trademarked products";
      desc_intense = some "Users are encouraged to purchase specific real-world items";
    })
    ∷ []
