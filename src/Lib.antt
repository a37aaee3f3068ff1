-- ===== src/Lib.antt =====
-- ARINC 615A command line tool suite: a model of its protocol layer, lib/arinc_615a.
--
-- The tool suite loads data into aircraft equipment. A host and a target exchange protocol files over
-- TFTP: the initialization file answers a request, and list, request, answer and status files carry
-- what is to be loaded and how far it is. The TFTP layer adds WAIT and ABORT messages in the error
-- packets of TFTP and retries an operation that fails. Equipment is found by FIND packets. Protocol
-- files travel under names that hold the identification of the target.
--
-- Which file models what:
--   Base             the helpers that the files share: tests on numbers, lists, the C++ string functions
--                    find, substr and starts_with, exceptions as values (Result), and the two loops that
--                    the protocol files are made of.
--   RawData          the functions of the helper library, a parameter with what is relied on of it as
--                    RawDataLaws; BigEndian shows that network byte order meets them.
--   Status           Arinc615a.hpp and StatusCode.cpp: the enumerations and their conversions.
--   Information      lib/arinc_615a/information: what the protocol files carry, with the operations that
--                    change it.
--   Files            lib/arinc_615a/files. Strings is String.cpp, Ratio is Ratio.cpp, Header is
--                    ProtocolFile.cpp (insertHeader, decodeHeader), Buffers and StateFields are what
--                    several encoders write alike, Items ties an encoder and a decoder of list elements
--                    together, and Failures tells which exceptions are those of the library. One module per file class: InitializationFile (LCI, LUI, LND, LNO),
--                    LoadConfigurationListFile (LCL), InformationStatusFile (LCS), UploadRequestFile (LUR),
--                    UploadStatusFile (LUS), DownloadListFile (LNL), DownloadAnswerFile (LNA),
--                    DownloadRequestFile (LNR) and DownloadStatusFile (LNS).
--   TargetId         TargetId.cpp.
--   ProtocolFilename files/ProtocolFilename.cpp.
--   Find.Packet      find/packets/Packet.cpp; Parsing is about the loop of its constructor.
--   Tftp             tftp/Tftp.hpp. ErrorMessage is tftp/ErrorMessage.cpp, and ClientOperation is
--                    tftp/clients/implementation/OperationImpl.cpp.
--   Host             host/implementation. Operation is OperationImpl.cpp, the base of the operations of the
--                    host, InformationOperation is InformationOperationImpl.cpp, UploadOperation is
--                    UploadOperationImpl.cpp, and DownloadOperation is DownloadOperationImpl.cpp with the
--                    media and the operator defined class.
--   Target           target/implementation. Operation is OperationImpl.cpp, the base of the operations of
--                    the target, with what they do alike in Operation/State; UploadOperation,
--                    DownloadOperation (both kinds) and InformationOperation are the files of these
--                    names, Protocol is ProtocolImpl.cpp, and ErrorOperation is ErrorOperationImpl.cpp.
--                    Machine is the interface that the three operations fill: a handler of events, the
--                    states in which the next status can be sent, and the statuses that an event sends.
--   Exchange         host and target together. Initialisation is the request of the host and the answer of
--                    the target, Names the dispatch of the files that one writes to the other, Requests the
--                    files that the users choose, UploadStatus, DownloadStatus and Information the status
--                    files that a target sends, delivered to a host one after the other, Counters their
--                    numbering, FinalStatus the end of an upload, and Delivery what these share.
--   Tests            the theorems at concrete data, and runs.
--
-- How the code corresponds: a class is a record of its data members, and a member function is a function
-- that takes the record. encode and decode of a protocol file are the private members of these names,
-- with all guards in their order; decode takes the object as it was before, and gives the object after a
-- decoding that ends normally. A throw is an err of the Result. A catch of Arinc615aException takes every
-- throw of the sources of lib/arinc_615a, and neither those of the helper library nor that of
-- std::vector::at: these leave the handler, and stand as throws or host_throws in its outcome. Characters and bytes are natural numbers,
-- integers of 8, 16 and 32 bits are natural numbers below their modulus, and casts and increments wrap.
-- A call of a handler, a timer or the TFTP library is an Action, a HostAction or a TargetAction in the
-- outcome of a step, and what these call back, and the calls of the user, are events: a component has a
-- data type of events and a function that handles one, and run_events handles a sequence. A timer is the
-- time for which it is armed, or none. The environment of a client operation calls it in order: the user
-- asks for a file when nothing is outstanding, and a completion, a timer or an option comes only while an
-- operation or a timer stands. Log messages and mutexes are left out: a step is one handler.
--
-- Fuel: the loop over the parameters of a FIND packet takes one character at least in each pass, so that
-- the length of the text is enough. The printing of a decimal number drops a digit in each step, so that
-- the number is enough. All other loops are by recursion on a list or a count.
--
-- Budget: the statuses of a target hold at most 65535 loads or files, and an event adds one at most, so
-- that a state that can be sent has a number of events that it can still take.
--
-- Not modelled: the helper, TFTP, ARINC 649 and ARINC 665 libraries and boost, which are not in the
-- repository; the TFTP server, the options, and the FIND client and server, which would be further parts
-- of Tftp and Find; statistics, loggers, descriptions and configuration, which do not touch the protocol;
-- the commands and the application.
pub mod Base
pub mod RawData
pub mod Status
pub mod Information
pub mod Files
pub mod TargetId
pub mod ProtocolFilename
pub mod Find
pub mod Tftp
pub mod Host
pub mod Target
pub mod Exchange
pub mod Tests
