-- ===== src/Spdx/Lists/First.antt =====
-- src/as-spdx-data.h: the ids of licenses from 0BSD to CECILL-1.1.
use appstream.Base.{List, [], ◌∷◌, Bytes, codes}

abbrev pub first_ids : List Bytes
first_ids =
    codes "0BSD"
    ∷ codes "AAL"
    ∷ codes "ADSL"
    ∷ codes "AFL-1.1"
    ∷ codes "AFL-1.2"
    ∷ codes "AFL-2.0"
    ∷ codes "AFL-2.1"
    ∷ codes "AFL-3.0"
    ∷ codes "AGPL-1.0"
    ∷ codes "AGPL-1.0-only"
    ∷ codes "AGPL-1.0-or-later"
    ∷ codes "AGPL-3.0"
    ∷ codes "AGPL-3.0-only"
    ∷ codes "AGPL-3.0-or-later"
    ∷ codes "AMDPLPA"
    ∷ codes "AML"
    ∷ codes "AMPAS"
    ∷ codes "ANTLR-PD"
    ∷ codes "ANTLR-PD-fallback"
    ∷ codes "APAFML"
    ∷ codes "APL-1.0"
    ∷ codes "APSL-1.0"
    ∷ codes "APSL-1.1"
    ∷ codes "APSL-1.2"
    ∷ codes "APSL-2.0"
    ∷ codes "ASWF-Digital-Assets-1.0"
    ∷ codes "ASWF-Digital-Assets-1.1"
    ∷ codes "Abstyles"
    ∷ codes "AdaCore-doc"
    ∷ codes "Adobe-2006"
    ∷ codes "Adobe-Glyph"
    ∷ codes "Adobe-Utopia"
    ∷ codes "Afmparse"
    ∷ codes "Aladdin"
    ∷ codes "Apache-1.0"
    ∷ codes "Apache-1.1"
    ∷ codes "Apache-2.0"
    ∷ codes "App-s2p"
    ∷ codes "Arphic-1999"
    ∷ codes "Artistic-1.0"
    ∷ codes "Artistic-1.0-Perl"
    ∷ codes "Artistic-1.0-cl8"
    ∷ codes "Artistic-2.0"
    ∷ codes "BSD-1-Clause"
    ∷ codes "BSD-2-Clause"
    ∷ codes "BSD-2-Clause-FreeBSD"
    ∷ codes "BSD-2-Clause-NetBSD"
    ∷ codes "BSD-2-Clause-Patent"
    ∷ codes "BSD-2-Clause-Views"
    ∷ codes "BSD-3-Clause"
    ∷ codes "BSD-3-Clause-Attribution"
    ∷ codes "BSD-3-Clause-Clear"
    ∷ codes "BSD-3-Clause-LBNL"
    ∷ codes "BSD-3-Clause-Modification"
    ∷ codes "BSD-3-Clause-No-Military-License"
    ∷ codes "BSD-3-Clause-No-Nuclear-License"
    ∷ codes "BSD-3-Clause-No-Nuclear-License-2014"
    ∷ codes "BSD-3-Clause-No-Nuclear-Warranty"
    ∷ codes "BSD-3-Clause-Open-MPI"
    ∷ codes "BSD-3-Clause-Sun"
    ∷ codes "BSD-4-Clause"
    ∷ codes "BSD-4-Clause-Shortened"
    ∷ codes "BSD-4-Clause-UC"
    ∷ codes "BSD-4.3RENO"
    ∷ codes "BSD-4.3TAHOE"
    ∷ codes "BSD-Advertising-Acknowledgement"
    ∷ codes "BSD-Attribution-HPND-disclaimer"
    ∷ codes "BSD-Inferno-Nettverk"
    ∷ codes "BSD-Protection"
    ∷ codes "BSD-Source-Code"
    ∷ codes "BSD-Systemics"
    ∷ codes "BSL-1.0"
    ∷ codes "BUSL-1.1"
    ∷ codes "Baekmuk"
    ∷ codes "Bahyph"
    ∷ codes "Barr"
    ∷ codes "Beerware"
    ∷ codes "BitTorrent-1.0"
    ∷ codes "BitTorrent-1.1"
    ∷ codes "Bitstream-Charter"
    ∷ codes "Bitstream-Vera"
    ∷ codes "BlueOak-1.0.0"
    ∷ codes "Boehm-GC"
    ∷ codes "Borceux"
    ∷ codes "Brian-Gladman-3-Clause"
    ∷ codes "C-UDA-1.0"
    ∷ codes "CAL-1.0"
    ∷ codes "CAL-1.0-Combined-Work-Exception"
    ∷ codes "CATOSL-1.1"
    ∷ codes "CC-BY-1.0"
    ∷ codes "CC-BY-2.0"
    ∷ codes "CC-BY-2.5"
    ∷ codes "CC-BY-2.5-AU"
    ∷ codes "CC-BY-3.0"
    ∷ codes "CC-BY-3.0-AT"
    ∷ codes "CC-BY-3.0-DE"
    ∷ codes "CC-BY-3.0-IGO"
    ∷ codes "CC-BY-3.0-NL"
    ∷ codes "CC-BY-3.0-US"
    ∷ codes "CC-BY-4.0"
    ∷ codes "CC-BY-NC-1.0"
    ∷ codes "CC-BY-NC-2.0"
    ∷ codes "CC-BY-NC-2.5"
    ∷ codes "CC-BY-NC-3.0"
    ∷ codes "CC-BY-NC-3.0-DE"
    ∷ codes "CC-BY-NC-4.0"
    ∷ codes "CC-BY-NC-ND-1.0"
    ∷ codes "CC-BY-NC-ND-2.0"
    ∷ codes "CC-BY-NC-ND-2.5"
    ∷ codes "CC-BY-NC-ND-3.0"
    ∷ codes "CC-BY-NC-ND-3.0-DE"
    ∷ codes "CC-BY-NC-ND-3.0-IGO"
    ∷ codes "CC-BY-NC-ND-4.0"
    ∷ codes "CC-BY-NC-SA-1.0"
    ∷ codes "CC-BY-NC-SA-2.0"
    ∷ codes "CC-BY-NC-SA-2.0-DE"
    ∷ codes "CC-BY-NC-SA-2.0-FR"
    ∷ codes "CC-BY-NC-SA-2.0-UK"
    ∷ codes "CC-BY-NC-SA-2.5"
    ∷ codes "CC-BY-NC-SA-3.0"
    ∷ codes "CC-BY-NC-SA-3.0-DE"
    ∷ codes "CC-BY-NC-SA-3.0-IGO"
    ∷ codes "CC-BY-NC-SA-4.0"
    ∷ codes "CC-BY-ND-1.0"
    ∷ codes "CC-BY-ND-2.0"
    ∷ codes "CC-BY-ND-2.5"
    ∷ codes "CC-BY-ND-3.0"
    ∷ codes "CC-BY-ND-3.0-DE"
    ∷ codes "CC-BY-ND-4.0"
    ∷ codes "CC-BY-SA-1.0"
    ∷ codes "CC-BY-SA-2.0"
    ∷ codes "CC-BY-SA-2.0-UK"
    ∷ codes "CC-BY-SA-2.1-JP"
    ∷ codes "CC-BY-SA-2.5"
    ∷ codes "CC-BY-SA-3.0"
    ∷ codes "CC-BY-SA-3.0-AT"
    ∷ codes "CC-BY-SA-3.0-DE"
    ∷ codes "CC-BY-SA-3.0-IGO"
    ∷ codes "CC-BY-SA-4.0"
    ∷ codes "CC-PDDC"
    ∷ codes "CC0-1.0"
    ∷ codes "CDDL-1.0"
    ∷ codes "CDDL-1.1"
    ∷ codes "CDL-1.0"
    ∷ codes "CDLA-Permissive-1.0"
    ∷ codes "CDLA-Permissive-2.0"
    ∷ codes "CDLA-Sharing-1.0"
    ∷ codes "CECILL-1.0"
    ∷ codes "CECILL-1.1"
    ∷ []
